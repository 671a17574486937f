-- ===== src/Catalog/IndexKey.antt =====
-- Index entries sort by the values of the index's columns, one after the other, then by rowid.
use arkeion.Common.{
  ℕ, ◌≡◌, refl, ap, sym, ◌∙◌, arith, Option, some, List, [], ◌∷◌, ◌++◌, append_assoc, append-nil,
  get_elem?, Option-cases, inl, inr, ◌>>=◌,
}
use Prim.Native.Nat.{Ordering}
use mathlib.Core.Path.{ap₂}
use arkeion.Common.Words.{IsU64, compare_ℤ, signed}
use arkeion.Common.Lex.{lex, lex_same_head, then_cmp, then_cmp-eq, then_cmp_assoc}
use mathlib.Core.Option.{some-injective}
use arkeion.Record.{Value}
use arkeion.Keyenc.{encode_index_value, rowid_be}
use arkeion.Keyenc.Fixed.{rowid_be-order}
use arkeion.Keyenc.Order.{compare_entry, SameColumn, encode_index_value-order}
use arkeion.Catalog.{
  IndexDef, index_id_prefix, encode_index_values, index_value_prefix, encode_columns,
  index_entry_key,
}

-- The values of an index's columns in a row.
unfoldable pub values_of : List ℕ → List Value → Option (List Value)
values_of [] row = some []
values_of (col ∷ cols) row = do v ← get_elem? row col; rest ← values_of cols row; some (v ∷ rest)

encode_columns_lem :
    (cols : List ℕ) (row vs : List Value)
    → values_of cols row ≡ some vs
    → encode_columns cols row ≡ some (encode_index_values vs)
unfolding values_of encode_columns encode_index_values
encode_columns_lem [] row vs e =
    let none_left : [] ≡ vs = some-injective [] vs e in
    ap (λ l. some (encode_index_values l)) none_left
encode_columns_lem (col ∷ cols) row vs e = elim (Option-cases (get_elem? row col)) [
  | inl g ↦ absurd (ground (arith, g, e))
  | inr (v, g) ↦ elim (Option-cases (values_of cols row)) [
    | inl f ↦ absurd (ground (arith, g, f, e))
    | inr (rest, f) ↦
        let whole : v ∷ rest ≡ vs = some-injective (v ∷ rest) vs (rw (g, f) at e) in
        rw (g, encode_columns_lem cols row rest f) (ap (λ l. some (encode_index_values l)) whole)
  ]
]

-- Rows of values of the same columns, compared column by column; the shorter does not occur.
abbrev pub SameColumns : List Value → List Value → Type 0
SameColumns [] [] = Unit
SameColumns (v ∷ vs) (w ∷ ws) = SameColumn v w × SameColumns vs ws
SameColumns _ _ = ⊥

abbrev pub compare_values : List Value → List Value → Ordering
compare_values (v ∷ vs) (w ∷ ws) = then_cmp (compare_entry v w) (compare_values vs ws)
compare_values _ _ = Ordering.eq

encode_index_values-order :
    (vs ws : List Value) (xs ys : List ℕ)
    → SameColumns vs ws
    → lex (encode_index_values vs ++ xs) (encode_index_values ws ++ ys)
      ≡ then_cmp (compare_values vs ws) (lex xs ys)
unfolding encode_index_values
encode_index_values-order [] [] xs ys h = refl
encode_index_values-order (v ∷ vs) (w ∷ ws) xs ys h =
    rw
      (
        append_assoc (encode_index_value v) (encode_index_values vs) xs,
        append_assoc (encode_index_value w) (encode_index_values ws) ys,
        encode_index_value-order v w (encode_index_values vs ++ xs) (encode_index_values ws ++ ys)
            h.0,
        encode_index_values-order vs ws xs ys h.1,
        then_cmp_assoc (compare_entry v w) (compare_values vs ws) (lex xs ys),
      )
      refl
encode_index_values-order [] (w ∷ ws) xs ys h = absurd h
encode_index_values-order (v ∷ vs) [] xs ys h = absurd h

lex_same_prefix : (p xs ys : List ℕ) → lex (p ++ xs) (p ++ ys) ≡ lex xs ys
lex_same_prefix [] xs ys = refl
lex_same_prefix (x ∷ p) xs ys = lex_same_head x (p ++ xs) (p ++ ys) ∙ lex_same_prefix p xs ys

-- A row that has the columns of an index has an entry in it, which is the prefix of the values
-- of these columns and then the rowid.
pub index_entry_key-index_value_prefix :
    (idx : IndexDef) (row vs : List Value) (rowid : ℕ)
    → values_of idx.columns row ≡ some vs
    → index_entry_key idx row rowid ≡ some (index_value_prefix idx vs ++ rowid_be rowid)
unfolding index_entry_key index_value_prefix
index_entry_key-index_value_prefix idx row vs rowid e =
    rw
      (
        encode_columns_lem idx.columns row vs e,
        append_assoc (index_id_prefix idx.index_id) (encode_index_values vs) (rowid_be rowid),
      )
      refl

-- The entries of two rows in one index compare as the values of the columns of the index, one
-- column after the other, and where these are equal as the 64-bit rowids, when each column holds values
-- of one type or null. Values compare as in SQL's ascending order, NULL first, no real is a NaN,
-- and -0.0, which SQL takes as equal to 0.0, comes before it.
pub index_entry_key-order :
    (idx : IndexDef) (row other vs ws : List Value) (key last : List ℕ) (r s : ℕ)
    → values_of idx.columns row ≡ some vs
    → values_of idx.columns other ≡ some ws
    → SameColumns vs ws
    → IsU64 r
    → IsU64 s
    → index_entry_key idx row r ≡ some key
    → index_entry_key idx other s ≡ some last
    → lex key last ≡ then_cmp (compare_values vs ws) (compare_ℤ (signed r) (signed s))
unfolding index_value_prefix
index_entry_key-order idx row other vs ws key last r s a b same hr hs ka kb =
    let key_is : index_value_prefix idx vs ++ rowid_be r ≡ key =
      some-injective _ key (sym (index_entry_key-index_value_prefix idx row vs r a) ∙ ka) in
    let last_is : index_value_prefix idx ws ++ rowid_be s ≡ last =
      some-injective _ last (sym (index_entry_key-index_value_prefix idx other ws s b) ∙ kb) in
    let id : List ℕ = index_id_prefix idx.index_id in
    let rowids : lex (rowid_be r) (rowid_be s) ≡ compare_ℤ (signed r) (signed s) =
      ap₂ lex (sym (append-nil (rowid_be r))) (sym (append-nil (rowid_be s)))
      ∙ rowid_be-order r s [] [] hr hs
      ∙ then_cmp-eq (compare_ℤ (signed r) (signed s)) in
    ap₂ lex (sym key_is) (sym last_is)
    ∙ ap₂ lex (append_assoc id (encode_index_values vs) (rowid_be r))
        (append_assoc id (encode_index_values ws) (rowid_be s))
    ∙ lex_same_prefix id (encode_index_values vs ++ rowid_be r)
        (encode_index_values ws ++ rowid_be s)
    ∙ encode_index_values-order vs ws (rowid_be r) (rowid_be s) same
    ∙ ap (then_cmp (compare_values vs ws)) rowids
