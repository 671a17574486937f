-- ===== src/Record/Project.antt =====
-- The readers of single columns against `decode_values`.
use arkeion.Common.{
  ℕ, zero, suc, ◌+◌, ◌-◌, ◌≤◌, ◌<◌, ◌≡◌, refl, sym, ap, ◌∙◌, arith, Option, none, some, List, [],
  ◌∷◌, inl, inr, map, length, take, get_elem?, get_or, leb, ◌==◌, Bool-cases, leb→le, leb-false,
}
use mathlib.Core.Path.{ap₂}
use arkeion.Common.Cursor.{get_range?, get_range?-bounds, get_range?-length}
use arkeion.Format.{take_varint}
use arkeion.Format.VarintTotal.{take_varint-bounds}
use arkeion.Error.{ok, ok_or, bind-eq-ok, ok_or-eq-ok}
use arkeion.Record.{
  Value, blob, add_usize, decode_payload, decode_payloads, decode_tags, decode_values,
  skip_payloads, blob_at, col_blob_bytes, project, decode_cols_sorted,
}
use arkeion.Record.Payload.{IsBuffer}
use arkeion.Record.Skip.{skip_payload-decode_payload}

-- The columns asked for are increasing, from `i` on.
abbrev pub Increasing : ℕ → List ℕ → Type 0
Increasing i [] = Unit
Increasing i (w ∷ ws) = (i ≤ w) × Increasing (suc w) ws

-- The columns `wanted` of a row whose first column has the number `i`.
select : List Value → ℕ → List ℕ → List (Option Value)
select vs i [] = []
select vs i (w ∷ ws) = get_elem? vs (w - i) ∷ select vs i ws

Increasing-weaken : (i j : ℕ) (ws : List ℕ) → i ≤ j → Increasing j ws → Increasing i ws
Increasing-weaken i j [] h k = tt
Increasing-weaken i j (w ∷ ws) h k = (omega (arith, k.0), k.1)

select-shift :
    (v : Value) (vs : List Value) (i : ℕ) (ws : List ℕ)
    → Increasing (suc i) ws
    → select (v ∷ vs) i ws ≡ select vs (i + 1) ws
unfolding select
select-shift v vs i [] h = refl
select-shift v vs i (w ∷ ws) h =
    let next : w - i ≡ suc (w - (i + 1)) = omega (arith, h.0) in
    rw next (
      ap (λ l. get_elem? vs (w - (i + 1)) ∷ l)
        (select-shift v vs i ws (Increasing-weaken (suc i) (suc w) ws (omega (arith, h.0)) h.1)))

-- A row of payloads that decodes, taken apart at its first column.
decode_payloads-cons :
    (buf : List ℕ) (pos tag p : ℕ) (tags : List ℕ) (vs : List Value)
    → decode_payloads buf pos (tag ∷ tags) ≡ ok (vs, p)
    → (v : Value) × (rest : List Value) × (q : ℕ) × (vs ≡ v ∷ rest)
      × (decode_payload buf pos tag ≡ ok (v, q))
      × (decode_payloads buf q tags ≡ ok (rest, p))
unfolding decode_payloads
decode_payloads-cons buf pos tag p tags vs e =
    let ((v, q), first, later) = bind-eq-ok (decode_payload buf pos tag) _ e in
    let ((rest, p'), second, done) = bind-eq-ok (decode_payloads buf q tags) _ later in
    (v, rest, q, ground arith, first, ground (arith, second))

decode_payloads-nil :
    (buf : List ℕ) (pos p : ℕ) (vs : List Value) → decode_payloads buf pos [] ≡ ok (vs, p) → vs ≡ []
unfolding decode_payloads
decode_payloads-nil buf pos p vs e = ground arith

project-decode_payloads :
    (buf : List ℕ) (pos i p : ℕ) (tags wanted : List ℕ) (vs : List Value)
    → decode_payloads buf pos tags ≡ ok (vs, p)
    → Increasing i wanted
    → project buf pos i tags wanted ≡ ok (select vs i wanted)
unfolding project select
project-decode_payloads buf pos i p tags [] vs e h = refl
project-decode_payloads buf pos i p [] (w ∷ ws) vs e h =
    let ih =
      project-decode_payloads buf pos i p [] ws vs e
        (Increasing-weaken i (suc w) ws (omega (arith, h.0)) h.1) in
    rw ih (
      ap (λ l. ok (get_elem? l (w - i) ∷ select vs i ws))
        (sym (decode_payloads-nil buf pos p vs e)))
project-decode_payloads buf pos i p (tag ∷ tags) (w ∷ ws) vs e h =
    let (v, rest, q, same, first, later) = decode_payloads-cons buf pos tag p tags vs e in
    elim (Bool-cases (w == i)) [
      | inl here ↦
          let equal : w ≡ i = ground arith in
          let zero_off : w - i ≡ 0 = omega (arith, equal) in
          let beyond : Increasing (suc i) ws = rw equal at h.1 in
          let beyond' : Increasing (i + 1) ws =
            Increasing-weaken (i + 1) (suc i) ws (omega arith) beyond in
          rw (here, first, project-decode_payloads buf q (i + 1) p tags ws rest later beyond')
            (ap ok (
              ap₂ ◌∷◌
                (sym (ap (λ l. get_elem? l (w - i)) same ∙ ap (get_elem? (v ∷ rest)) zero_off))
                (sym (ap (λ l. select l i ws) same ∙ select-shift v rest i ws beyond))))
      | inr there ↦
          let beyond : Increasing (suc i) (w ∷ ws) = (ground arith, h.1) in
          let beyond' : Increasing (i + 1) (w ∷ ws) = (ground arith, h.1) in
          rw (there, skip_payload-decode_payload buf pos tag q v first)
            (project-decode_payloads buf q (i + 1) p tags (w ∷ ws) rest later beyond'
              ∙ ap ok (
                  sym (ap (λ l. select l i (w ∷ ws)) same ∙ select-shift v rest i (w ∷ ws) beyond)))
    ]

-- A row that decodes: its head and its payloads.
decode_values-parts :
    (buf : List ℕ) (vs : List Value)
    → decode_values buf ≡ ok vs
    → (tags : List ℕ) × (pos : ℕ) × (p : ℕ) × (decode_tags buf ≡ ok (tags, pos))
      × (decode_payloads buf pos tags ≡ ok (vs, p))
unfolding decode_values
decode_values-parts buf vs e =
    let ((tags, pos), head, later) = bind-eq-ok (decode_tags buf) _ e in
    let ((values, p), body, done) = bind-eq-ok (decode_payloads buf pos tags) _ later in
    (tags, pos, p, head, ground (arith, body))

select-map : (vs : List Value) (ws : List ℕ) → select vs 0 ws ≡ map (get_elem? vs) ws
unfolding select
select-map vs [] = refl
select-map vs (w ∷ ws) =
    let whole : w - 0 ≡ w = omega arith in ap₂ ◌∷◌ (ap (get_elem? vs) whole) (select-map vs ws)

-- On a record that `decode_values` accepts, `decode_cols_sorted` gives for increasing columns
-- those of the whole row, and none for a column beyond it.
pub decode_cols_sorted-decode_values :
    (buf wanted : List ℕ) (vs : List Value)
    → decode_values buf ≡ ok vs
    → Increasing 0 wanted
    → decode_cols_sorted buf wanted ≡ ok (map (get_elem? vs) wanted)
unfolding decode_cols_sorted
decode_cols_sorted-decode_values buf wanted vs e h =
    let (tags, pos, p, head, body) = decode_values-parts buf vs e in
    rw head
      (project-decode_payloads buf pos 0 p tags wanted vs body h ∙ ap ok (select-map vs wanted))

-- The blob of a column, if its value is one.
abbrev pub blob_of : Option Value → Option (List ℕ)
blob_of (some (blob b)) = some b
blob_of _ = none

blob_at-decode_payload :
    (buf : List ℕ) (pos tag p : ℕ) (v : Value)
    → decode_payload buf pos tag ≡ ok (v, p)
    → blob_at buf pos tag ≡ ok (blob_of (some v))
unfolding decode_payload blob_at
blob_at-decode_payload buf pos tag p v e = ground arith

-- Skipping to a column reaches a position where its value decodes.
skip_payloads-column :
    (buf : List ℕ) (pos p : ℕ) (tags : List ℕ) (vs : List Value) (col : ℕ)
    → decode_payloads buf pos tags ≡ ok (vs, p)
    → col < length tags
    → (v : Value) × (q : ℕ) × (r : ℕ) × (skip_payloads buf pos (take col tags) ≡ ok q)
      × (decode_payload buf q (get_or tags col 0) ≡ ok (v, r))
      × (get_elem? vs col ≡ some v)
unfolding skip_payloads
skip_payloads-column buf pos p [] vs col e h = absurd (omega arith)
skip_payloads-column buf pos p (tag ∷ tags) vs zero e h =
    let (v, rest, q, same, first, later) = decode_payloads-cons buf pos tag p tags vs e in
    (v, pos, q, refl, first, ap (λ l. get_elem? l 0) same)
skip_payloads-column buf pos p (tag ∷ tags) vs (suc col) e h =
    let (v, rest, q, same, first, later) = decode_payloads-cons buf pos tag p tags vs e in
    let (x, r, r', path, there, found) =
      skip_payloads-column buf q p tags rest col later (omega arith) in
    (
      x,
      r,
      r',
      rw (skip_payload-decode_payload buf pos tag q v first) path,
      there,
      ap (λ l. get_elem? l (suc col)) same ∙ found,
    )

decode_payloads-beyond :
    (buf : List ℕ) (pos p : ℕ) (tags : List ℕ) (vs : List Value) (col : ℕ)
    → decode_payloads buf pos tags ≡ ok (vs, p)
    → length tags ≤ col
    → get_elem? vs col ≡ none
decode_payloads-beyond buf pos p [] vs col e h =
    ap (λ l. get_elem? l col) (decode_payloads-nil buf pos p vs e)
decode_payloads-beyond buf pos p (tag ∷ tags) vs zero e h = absurd (omega arith)
decode_payloads-beyond buf pos p (tag ∷ tags) vs (suc col) e h =
    let (v, rest, q, same, first, later) = decode_payloads-cons buf pos tag p tags vs e in
    ap (λ l. get_elem? l (suc col)) same
    ∙ decode_payloads-beyond buf q p tags rest col later (omega arith)

-- The head of a record whose tags decode: the count of columns is the count of tags.
decode_tags-parts :
    (buf tags : List ℕ) (p : ℕ)
    → IsBuffer buf
    → decode_tags buf ≡ ok (tags, p)
    → (n : ℕ) × (q : ℕ) × (take_varint buf 0 ≡ some (n, q))
      × (get_range? buf q (add_usize q n) ≡ some tags)
      × (p ≡ add_usize q n)
      × (n ≡ length tags)
unfolding decode_tags
decode_tags-parts buf tags p small e =
    let ((n, q), first, later) = bind-eq-ok (ok_or (take_varint buf 0) _) _ e in
    let number = ok_or-eq-ok (take_varint buf 0) _ first in
    let (ts, second, done) = bind-eq-ok (ok_or (get_range? buf q (add_usize q n)) _) _ later in
    let range = ok_or-eq-ok (get_range? buf q (add_usize q n)) _ second in
    let here : get_range? buf q (add_usize q n) ≡ some tags = ground (arith, range, done) in
    let width = get_range?-length buf tags q (add_usize q n) here in
    let bounds = get_range?-bounds buf tags q (add_usize q n) here in
    let word = take_varint-bounds buf 0 n q number in
    (
      n,
      q,
      number,
      here,
      ground (arith, done),
      omega (arith, width, bounds, word.0, word.1, word.2, word.3),
    )

-- On a record in a buffer of less than 2^63 bytes that `decode_values` accepts, `col_blob_bytes`
-- gives the bytes of a blob column and none for another value or a column beyond the row.
pub col_blob_bytes-decode_values :
    (buf : List ℕ) (vs : List Value) (col : ℕ)
    → IsBuffer buf
    → decode_values buf ≡ ok vs
    → col_blob_bytes buf col ≡ ok (blob_of (get_elem? vs col))
unfolding col_blob_bytes
col_blob_bytes-decode_values buf vs col small e =
    let (tags, pos, p, head, body) = decode_values-parts buf vs e in
    let (n, q, number, range, place, count) = decode_tags-parts buf tags pos small head in
    elim (Bool-cases (leb n col)) [
      | inl over ↦
          let beyond =
            decode_payloads-beyond buf pos p tags vs col body
              (omega (arith, count, leb→le n col over)) in
          rw (number, over, beyond)
      | inr within ↦
          let start : decode_payloads buf (add_usize q n) tags ≡ ok (vs, p) = rw place at body in
          let (v, r, r', path, there, found) =
            skip_payloads-column buf (add_usize q n) p tags vs col start
              (omega (arith, count, leb-false n col within)) in
          rw (number, within, range, path, found)
            (blob_at-decode_payload buf r (get_or tags col 0) r' v there)
    ]
