-- ===== src/Branch/Decode.antt =====
-- branch.rs: what `decode` makes of the changed keys of two trees, and an independent reading of them
-- by what each key is for.
use mathlib.Core.Option.{some-injective}
use arkeion.Common.{
  ℕ, ◌+◌, ◌≤◌, ◌<◌, ◌≡◌, ◌≢◌, ◌⊎◌, inl, inr, refl, ap, sym, ◌∙◌, suc, true, false, arith, Option,
  none, some, List, [], ◌∷◌, ◌++◌, map, length, All, leb, ◌==◌,
}
use arkeion.Common.Words.{IsU32, IsU64}
use arkeion.Common.LexOrder.{lex-cases}
use arkeion.Catalog.{row_key, decode_row_key}
use arkeion.Catalog.RowKey.{row_key-first, decode_row_key-row_key}
use arkeion.Keyenc.{nbytes, significant, encode_oint}
use arkeion.Branch.{
  ChangeKind, added, removed, modified, RowChange, SchemaChange, Diff, KeyChange, key_added,
  key_removed, key_modified, KeyDiff, kind_of, decode_change, decode, diff_len,
}
use arkeion.Btree.Diff.Merge.{change_of}

-- What a key of the tree is for: a row, the definition of a table, or something internal.
pub data Owner : Type 0 where
  row : ℕ → ℕ → Owner
  table : List ℕ → Owner
  internal : List ℕ → Owner

abbrev pub owner_key : Owner → List ℕ
owner_key (row table_id rowid) = row_key table_id rowid
owner_key (table name) = 0x00 ∷ 0x01 ∷ name
owner_key (internal key) = key

-- Below the rows, and not in the tables of the catalog.
abbrev pub IsInternal : List ℕ → Type 0
IsInternal [] = Unit
IsInternal (b ∷ []) = b < 0x80
IsInternal (b ∷ c ∷ rest) = (b < 0x80) × ((b ≢ 0x00) ⊎ (c ≢ 0x01))

abbrev pub IsOwner : Owner → Type 0
IsOwner (row table_id rowid) = IsU32 table_id × IsU64 rowid
IsOwner (table name) = Unit
IsOwner (internal key) = IsInternal key

-- A changed key, with its values in the two trees, where it has one, and the change between these.
pub record Changed : Type 0 where
  pub owner : Owner
  pub before : Option (List ℕ)
  pub after : Option (List ℕ)
  pub change : KeyChange

pub record IsChanged (c : Changed) : Type 0 where
  pub owned : IsOwner c.owner
  pub between : change_of c.before c.after ≡ some c.change

abbrev pub key_diff : Changed → KeyDiff
key_diff c = record { key = owner_key c.owner; change = c.change }

-- What is new has no value before, and what is gone none after.
abbrev pub kind_between : Option (List ℕ) → Option (List ℕ) → ChangeKind
kind_between none after = added
kind_between (some v) none = removed
kind_between (some v) (some w) = modified

abbrev pub rows_of : List Changed → List RowChange
rows_of [] = []
rows_of (c ∷ cs) = elim c.owner [
  | row t r ↦ record { table_id = t; rowid = r; kind = kind_between c.before c.after } ∷ rows_of cs
  | table name ↦ rows_of cs
  | internal key ↦ rows_of cs
]

abbrev pub tables_of : (List ℕ → List ℕ) → List Changed → List SchemaChange
tables_of lossy [] = []
tables_of lossy (c ∷ cs) = elim c.owner [
  | row t r ↦ tables_of lossy cs
  | table name ↦
      record { table = lossy name; kind = kind_between c.before c.after } ∷ tables_of lossy cs
  | internal key ↦ tables_of lossy cs
]

kind_of-change_of :
    (before after : Option (List ℕ)) (c : KeyChange)
    → change_of before after ≡ some c
    → kind_of c ≡ kind_between before after
kind_of-change_of none none c e = absurd cc
kind_of-change_of none (some w) c e = ap kind_of (sym (some-injective (key_added w) c e))
kind_of-change_of (some v) none c e = ap kind_of (sym (some-injective (key_removed v) c e))
kind_of-change_of (some v) (some w) c e = elim (lex-cases v w) [
  | inl (r, l) ↦ ap kind_of (sym (some-injective (key_modified v w) c (rw (change_of, l) at e)))
  | inr (inl (same, l)) ↦ let no = rw (change_of, l) at e in absurd cc
  | inr (inr (r, l)) ↦
      ap kind_of (sym (some-injective (key_modified v w) c (rw (change_of, l) at e)))
]

decode_change-row :
    (lossy : List ℕ → List ℕ) (t r : ℕ) (change : KeyChange) (rest : Diff)
    → IsU32 t
    → IsU64 r
    → decode_change lossy (record { key = row_key t r; change = change }) rest
      ≡ record rest { rows = record { table_id = t; rowid = r; kind = kind_of change } ∷ rest.rows }
unfolding decode_change
decode_change-row lossy t r change rest ht hr =
    let start : ℕ = 128 + nbytes t in
    let behind : List ℕ = significant t ++ encode_oint r in
    let key : row_key t r ≡ start ∷ behind = row_key-first t r ht in
    let row : decode_row_key (start ∷ behind) ≡ some (t, r) =
      ap decode_row_key (sym key) ∙ decode_row_key-row_key t r ht hr in
    let nonzero : (start == 0x00) ≡ false = ground arith in
    let high : leb 0x80 start ≡ true = ground arith in rw (key, nonzero, high, row) refl

decode_change-internal :
    (lossy : List ℕ → List ℕ) (key : List ℕ) (change : KeyChange) (rest : Diff)
    → IsInternal key
    → decode_change lossy (record { key = key; change = change }) rest ≡ rest
unfolding decode_change
decode_change-internal lossy [] change rest h = refl
decode_change-internal lossy (b ∷ []) change rest h = ground (arith, h)
decode_change-internal lossy (b ∷ c ∷ bs) change rest (low, other) = ground (arith, low, other)

decode_change-table :
    (lossy : List ℕ → List ℕ) (name : List ℕ) (change : KeyChange) (rest : Diff)
    → decode_change lossy (record { key = 0x00 ∷ 0x01 ∷ name; change = change }) rest
      ≡ record rest { schema = record { table = lossy name; kind = kind_of change } ∷ rest.schema }
unfolding decode_change
decode_change-table lossy name change rest = refl

-- Any changes of keys, in any order, of rows of u32 tables with 64-bit rowids, of tables and of
-- what is internal, where each change is what the values of the key before and after make it, are
-- decoded to the changes of the tables and of the rows, in their order, each with the kind that
-- its values before and after show: added without a value before, removed without one after, and
-- modified with both.
pub decode-Changed :
    (lossy : List ℕ → List ℕ) (cs : List Changed)
    → All IsChanged cs
    → decode lossy (map key_diff cs) ≡ record { schema = tables_of lossy cs; rows = rows_of cs }
unfolding decode
decode-Changed lossy [] h = refl
decode-Changed lossy (c ∷ cs) (h, hs) =
    let kind = kind_of-change_of c.before c.after c.change h.between in
    ap (decode_change lossy (key_diff c)) (decode-Changed lossy cs hs) ∙ go c.owner h.owned kind
  where
    with_row : ℕ → ℕ → ChangeKind → Diff
    with_row t r k = record {
      schema = tables_of lossy cs;
      rows = record { table_id = t; rowid = r; kind = k } ∷ rows_of cs;
    }

    with_table : List ℕ → ChangeKind → Diff
    with_table name k = record {
      schema = record { table = lossy name; kind = k } ∷ tables_of lossy cs;
      rows = rows_of cs;
    }

    go :
        (owner : Owner)
        → IsOwner owner
        → kind_of c.change ≡ kind_between c.before c.after
        → decode_change lossy
            (record { key = owner_key owner; change = c.change })
            (record { schema = tables_of lossy cs; rows = rows_of cs })
          ≡ (record {
            schema = tables_of lossy (record c { owner = owner } ∷ cs);
            rows = rows_of (record c { owner = owner } ∷ cs);
          })
    go (row t r) (ht, hr) kind =
        decode_change-row lossy t r c.change _ ht hr ∙ ap (λ (k : ChangeKind). with_row t r k) kind
    go (table name) o kind =
        decode_change-table lossy name c.change _ ∙ ap (λ (k : ChangeKind). with_table name k) kind
    go (internal key) o kind = decode_change-internal lossy key c.change _ o

diff_len-decode_change :
    (lossy : List ℕ → List ℕ) (key : List ℕ) (change : KeyChange) (rest : Diff)
    → diff_len (decode_change lossy (record { key = key; change = change }) rest)
      ≤ suc (diff_len rest)
unfolding decode_change
diff_len-decode_change lossy [] change rest = ground arith
diff_len-decode_change lossy (b ∷ []) change rest = ground arith
diff_len-decode_change lossy (b ∷ c ∷ name) change rest = ground arith

-- The changes that are decoded are at most as many as the changed keys.
pub diff_len-decode :
    (lossy : List ℕ → List ℕ) (ds : List KeyDiff) → diff_len (decode lossy ds) ≤ length ds
unfolding decode decode_change
diff_len-decode lossy [] = omega arith
diff_len-decode lossy (d ∷ ds) =
    omega (
      arith,
      diff_len-decode lossy ds,
      diff_len-decode_change lossy d.key d.change (decode lossy ds),
    )
