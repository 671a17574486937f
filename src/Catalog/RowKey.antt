-- ===== src/Catalog/RowKey.antt =====
-- Row keys sort by table and then by rowid, lie under their table's prefix, and are decoded.
use arkeion.Common.{
  ℕ, ◌+◌, ◌^◌, ◌≡◌, ◌↔◌, refl, ap, sym, ◌∙◌, arith, true, false, some, List, [], ◌∷◌, ◌++◌,
  append-nil, append_assoc, length, get_elem?, ltb, lt→ltb,
}
use mathlib.Core.Path.{subst}
use mathlib.Core.Option.{some-injective}
use arkeion.Common.Cursor.{At, At-start, At-append}
use arkeion.Common.Words.{IsU32, IsU64, compare_ℤ, signed}
use arkeion.Common.Lex.{lex, then_cmp}
use arkeion.Keyenc.{encode_oint, nbytes, significant}
use arkeion.Keyenc.Oint.{encode_oint-nonneg, decode_oint-encode_oint}
use arkeion.Keyenc.OintOrder.{encode_oint-order}
use arkeion.Keyenc.Prefix.{starts_with}
use arkeion.Catalog.{row_key, row_prefix, decode_row_key}

-- The keys of two rows compare as their tables, in one table as their rowids, and for equal rows
-- as what is behind the keys.
pub row_key-order :
    (t u r s : ℕ) (xs ys : List ℕ)
    → IsU32 t
    → IsU32 u
    → IsU64 r
    → IsU64 s
    → lex (row_key t r ++ xs) (row_key u s ++ ys)
      ≡ then_cmp
          (compare_ℤ (signed t) (signed u))
          (then_cmp (compare_ℤ (signed r) (signed s)) (lex xs ys))
unfolding row_key
row_key-order t u r s xs ys ht hu hr hs =
    rw
      (
        append_assoc (encode_oint t) (encode_oint r) xs,
        append_assoc (encode_oint u) (encode_oint s) ys,
        encode_oint-order t u (encode_oint r ++ xs) (encode_oint s ++ ys) (omega arith)
            (omega arith),
        encode_oint-order r s xs ys hr hs,
      )
      refl

-- A row's key starts with a byte from 0x80 on, which is in no other key space.
pub row_key-first :
    (t r : ℕ) → IsU32 t → row_key t r ≡ (128 + nbytes t) ∷ (significant t ++ encode_oint r)
unfolding row_key
row_key-first t r h = rw (encode_oint-nonneg t (omega arith)) refl

-- The key of a row of a u32 table and a 64-bit rowid is decoded to these.
pub decode_row_key-row_key :
    (table_id rowid : ℕ)
    → IsU32 table_id
    → IsU64 rowid
    → decode_row_key (row_key table_id rowid) ≡ some (table_id, rowid)
unfolding decode_row_key row_key
decode_row_key-row_key t r ht hr =
    let key : List ℕ = encode_oint t ++ encode_oint r in
    let start : At key 0 (encode_oint t ++ encode_oint r) = At-start key in
    let first : get_elem? key 0 ≡ some (128 + nbytes t) =
      ap (λ (k : List ℕ). get_elem? k 0) (row_key-first t r ht) in
    let high : ltb (128 + nbytes t) 0x80 ≡ false = ground arith in
    let table = decode_oint-encode_oint key (encode_oint r) 0 t (omega arith) start in
    let behind : At key (0 + length (encode_oint t)) (encode_oint r ++ []) =
      rw (append-nil (encode_oint r)) (At-append key (encode_oint t) (encode_oint r) 0 start) in
    let row = decode_oint-encode_oint key [] (0 + length (encode_oint t)) r hr behind in
    rw (first, high, table, row, lt→ltb t (2 ^ 32) ht) refl

starts_with-append : (xs ys : List ℕ) → starts_with (xs ++ ys) xs ≡ true
starts_with-append [] ys = refl
starts_with-append (x ∷ xs) ys = ground (arith, starts_with-append xs ys)

starts_with→append :
    (xs ps : List ℕ) → starts_with xs ps ≡ true → (rest : List ℕ) × (xs ≡ ps ++ rest)
starts_with→append xs [] e = (xs, refl)
starts_with→append [] (p ∷ ps) e = cc
starts_with→append (x ∷ xs) (p ∷ ps) e =
    let (rest, same) = starts_with→append xs ps (ground arith) in (rest, ground (arith, same))

-- The key of a row starts with the prefix of a table exactly when the row is of that table.
pub row_prefix-starts_with :
    (t u r : ℕ) → IsU32 t → IsU32 u → (starts_with (row_key t r) (row_prefix u) ≡ true) ↔ (t ≡ u)
unfolding row_key row_prefix
row_prefix-starts_with t u r ht hu = (
  λ e.
      let key : List ℕ = encode_oint t ++ encode_oint r in
      let (rest, same) = starts_with→append key (encode_oint u) e in
      let mine = decode_oint-encode_oint key (encode_oint r) 0 t (omega arith) (At-start key) in
      let there : At key 0 (encode_oint u ++ rest) = subst (λ l. At key 0 l) same (At-start key) in
      let theirs = decode_oint-encode_oint key rest 0 u (omega arith) there in
      ap (λ p. p.0)
        (some-injective (t, 0 + length (encode_oint t)) (u, 0 + length (encode_oint u))
          (sym mine ∙ theirs)),
  λ e.
      ap (λ v. starts_with (encode_oint t ++ encode_oint r) (encode_oint v)) (sym e)
      ∙ starts_with-append (encode_oint t) (encode_oint r),
)
