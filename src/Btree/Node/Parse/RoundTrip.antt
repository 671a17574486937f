-- ===== src/Btree/Node/Parse/RoundTrip.antt =====
-- The cells of a node are parsed back from the page that they were written into.
use arkeion.Common.{
  ℕ, ◌≡◌, refl, ap, ◌∙◌, true, false, inl, inr, Option, some, List, [], ◌∷◌, ◌++◌, append_assoc,
  map, All, length, drop,
}
use mathlib.Core.Path.{subst}
use mathlib.Core.Bool.{false≢true}
use arkeion.Common.LexOrder.{Below, lex-cases}
use arkeion.Common.Cursor.{At}
use arkeion.Common.Words.{IsU64, le_bytes}
use arkeion.Format.{put_varint}
use arkeion.Format.Prefixed.{IsBuffer}
use arkeion.Error.{ok}
use arkeion.Btree.Node.{LeafCell, InnerCell}
use arkeion.Btree.Node.Write.{encode_leaf_cell}
use arkeion.Btree.Node.Write.Cells.{IsPayload, inner_cell_bytes}
use arkeion.Btree.Node.Write.Slots.{concat}
use arkeion.Btree.Node.Parse.{follows, is_empty_key, parse_leaf_cells, parse_inner_cells}
use arkeion.Btree.Node.Parse.Reads.{reads-prefixed, reads-u64, reads-leaf_cell}

-- Keys that are not empty and increase, from the key before them on.
abbrev pub Ordered : Option (List ℕ) → List (List ℕ) → Type 0
Ordered last [] = Unit
Ordered last (k ∷ ks) = (is_empty_key k ≡ false) × (follows last k ≡ true) × Ordered (some k) ks

pub follows-Below : (p k : List ℕ) → follows (some p) k ≡ true → Below p k
follows-Below p k h = elim (lex-cases p k) [
  | inl (r, e) ↦ r
  | inr (inl (r, e)) ↦ absurd (false≢true (rw (follows, e) at h))
  | inr (inr (r, e)) ↦ absurd (false≢true (rw (follows, e) at h))
]

-- Leaves: what is stored of a key, and the whole of it.
abbrev pub leaf_block : ℕ → LeafCell → List ℕ
leaf_block plen c = encode_leaf_cell (drop plen c.key) c.payload

abbrev pub leaf_keys : List LeafCell → List (List ℕ)
leaf_keys = map (λ c. c.key)

abbrev pub inner_keys : List InnerCell → List (List ℕ)
inner_keys = map (λ c. c.key)

abbrev pub HasPrefix : List ℕ → LeafCell → Type 0
HasPrefix prefix c = prefix ++ drop (length prefix) c.key ≡ c.key

pub inner_cell_bytes-append :
    (c : InnerCell) (rest : List ℕ)
    → inner_cell_bytes c ++ rest
      ≡ put_varint (length c.key) ++ (c.key ++ (le_bytes 8 c.child ++ rest))
unfolding inner_cell_bytes
inner_cell_bytes-append c rest =
    append_assoc (put_varint (length c.key)) (c.key ++ le_bytes 8 c.child) rest
    ∙ ap (λ (l : List ℕ). put_varint (length c.key) ++ l)
        (append_assoc c.key (le_bytes 8 c.child) rest)

module _ (page : ℕ) (buf : List ℕ) (small : IsBuffer buf) where
  pub parse_leaf_cells-concat :
      (prefix : List ℕ) (cells : List LeafCell) (pos : ℕ) (last : Option (List ℕ)) (rest : List ℕ)
      → All (λ c. IsPayload c.payload × HasPrefix prefix c) cells
      → Ordered last (leaf_keys cells)
      → At buf pos (concat (map (leaf_block (length prefix)) cells) ++ rest)
      → (end : ℕ) × (parse_leaf_cells page buf prefix (length cells) pos last ≡ ok (cells, end))
  unfolding parse_leaf_cells
  parse_leaf_cells-concat prefix [] pos last rest h o at = (pos, refl)
  parse_leaf_cells-concat prefix (c ∷ cells) pos last rest ((hp, whole), h) (full, next, o) at =
      let block : List ℕ = leaf_block (length prefix) c in
      let more : List ℕ = concat (map (leaf_block (length prefix)) cells) in
      let here : At buf pos (block ++ (more ++ rest)) = rw (append_assoc block more rest) at at in
      let r =
        reads-leaf_cell page buf small (drop (length prefix) c.key) c.payload (more ++ rest) pos hp
          here in
      let (end, e) = parse_leaf_cells-concat prefix cells r.end (some c.key) rest h o r.next in
      (end, rw (r.key_read, whole, full, next, r.payload_read, e) refl)

  pub parse_inner_cells-concat :
      (cells : List InnerCell) (pos : ℕ) (last : Option (List ℕ)) (rest : List ℕ)
      → All (λ c. IsU64 c.child) cells
      → Ordered last (inner_keys cells)
      → At buf pos (concat (map inner_cell_bytes cells) ++ rest)
      → (end : ℕ) × (parse_inner_cells page buf (length cells) pos last ≡ ok (cells, end))
  unfolding parse_inner_cells
  parse_inner_cells-concat [] pos last rest h o at = (pos, refl)
  parse_inner_cells-concat (c ∷ cells) pos last rest (hc, h) (full, next, o) at =
      let more : List ℕ = concat (map inner_cell_bytes cells) in
      let here : At buf pos
          (put_varint (length c.key) ++ (c.key ++ (le_bytes 8 c.child ++ (more ++ rest)))) =
        subst (λ (l : List ℕ). At buf pos l)
          (append_assoc (inner_cell_bytes c) more rest ∙ inner_cell_bytes-append c (more ++ rest))
          at in
      let (number, bytes, behind) =
        reads-prefixed page buf small c.key (le_bytes 8 c.child ++ (more ++ rest)) pos here in
      let (child, after) = reads-u64 page buf small (more ++ rest) _ c.child hc behind in
      let (end, e) = parse_inner_cells-concat cells _ (some c.key) rest h o after in
      (end, rw (number, bytes, full, next, child, e) refl)
