-- ===== src/Btree/Node/InnerPage.antt =====
-- What a page is that `encode_inner` has written: the header and the slotted cells.
use arkeion.Common.{
  ℕ, ◌+◌, ◌*◌, ◌^◌, ◌≤◌, ◌<◌, ◌≡◌, refl, ap, sym, ◌∙◌, arith, Bool-cases, inl, inr, some, List, [],
  ◌∷◌, ◌++◌, append_assoc, append-nil, map, All, length, length-map, length-append, length-drop,
  drop, get_or, ltb, ltb-false,
}
use mathlib.Core.Path.{subst}
use mathlib.Core.Option.{some-injective}
use arkeion.Common.Cursor.{At, At-start, At-append}
use arkeion.Common.Words.{IsU64, le_bytes, length-le_bytes, from_le, from_le-le_bytes}
use arkeion.Common.Fields.{write_all, write_all-contents, At-slice}
use arkeion.Btree.Node.{
  type_inner, inner_hdr, InnerCell, node_type, ncells_of, sum_of, inner_cell_size,
}
use arkeion.Btree.Node.Write.{
  Cursor, write_inner_cell_at, write_inner_cells, fill_gap, inner_header, encode_inner,
}
use arkeion.Btree.Node.Write.Cells.{
  inner_cell_bytes, write_inner_cell_at-Puts, length-inner_cell_bytes,
}
use arkeion.Btree.Node.Write.Slots.{concat, pointers, slots, AllPuts}
use arkeion.Btree.Node.Write.Pages.{Slotted, fill_gap-Slotted}
use arkeion.Btree.Node.Parse.{inner_rightmost}

write_inner_cells-slots :
    (i : ℕ) (cells : List InnerCell) (c : Cursor)
    → write_inner_cells i cells c ≡ slots i (map (λ d. write_inner_cell_at d.key d.child) cells) c
unfolding write_inner_cells slots
write_inner_cells-slots i [] c = refl
write_inner_cells-slots i (d ∷ cells) (body, off) = write_inner_cells-slots (i + 1) cells _

inner-AllPuts :
    (cells : List InnerCell)
    → AllPuts (map (λ d. write_inner_cell_at d.key d.child) cells) (map inner_cell_bytes cells)
inner-AllPuts [] = tt
inner-AllPuts (c ∷ cells) = (write_inner_cell_at-Puts c, inner-AllPuts cells)

abbrev pub IsInnerCell : InnerCell → Type 0
IsInnerCell c = IsU64 (length c.key) × IsU64 c.child

length-inner_blocks :
    (cells : List InnerCell)
    → All IsInnerCell cells
    → length (concat (map inner_cell_bytes cells)) ≡ sum_of inner_cell_size cells
length-inner_blocks [] h = refl
length-inner_blocks (c ∷ cells) (h, hs) = omega (
  arith,
  length-append (inner_cell_bytes c) (concat (map inner_cell_bytes cells)),
  length-inner_cell_bytes c h.0,
  length-inner_blocks cells hs,
)

-- The count in a header, and the number behind it.
pub header_ncells :
    (k flags n : ℕ) (rest : List ℕ)
    → n < 2 ^ 16
    → ncells_of (k ∷ flags ∷ (le_bytes 2 n ++ rest)) ≡ n
header_ncells k flags n rest h =
    let start = At-start (k ∷ flags ∷ (le_bytes 2 n ++ rest)) in
    let there = At-append _ (k ∷ flags ∷ []) (le_bytes 2 n ++ rest) 0 start in
    ap from_le (At-slice _ (le_bytes 2 n) rest 2 4 there (omega (arith, length-le_bytes 2 n)))
    ∙ from_le-le_bytes 2 n (omega arith)

pub header_rightmost :
    (k flags n rightmost : ℕ) (rest : List ℕ)
    → IsU64 rightmost
    → inner_rightmost (k ∷ flags ∷ (le_bytes 2 n ++ (le_bytes 8 rightmost ++ rest))) ≡ rightmost
unfolding inner_rightmost
header_rightmost k flags n rightmost rest h =
    let page : List ℕ = k ∷ flags ∷ (le_bytes 2 n ++ (le_bytes 8 rightmost ++ rest)) in
    let behind =
      At-append page (k ∷ flags ∷ []) (le_bytes 2 n ++ (le_bytes 8 rightmost ++ rest)) 0
        (At-start page) in
    let there : At page 4 (le_bytes 8 rightmost ++ rest) =
      subst (λ (p : ℕ). At page p (le_bytes 8 rightmost ++ rest))
        (omega (arith, length-le_bytes 2 n))
        (At-append page (le_bytes 2 n) (le_bytes 8 rightmost ++ rest) 2 behind) in
    ap from_le (
      At-slice page (le_bytes 8 rightmost) rest 4 12 there
        (omega (arith, length-le_bytes 8 rightmost)))
    ∙ from_le-le_bytes 8 rightmost h

abbrev pub inner_front : ℕ → ℕ → List ℕ
inner_front n rightmost = type_inner ∷ 0 ∷ (le_bytes 2 n ++ (le_bytes 8 rightmost ++ []))

-- A page with an inner node.
pub record InnerPage (page : List ℕ) (cells : List InnerCell) (rightmost : ℕ) : Type 0 where
  pub small : length page < 2 ^ 16
  pub front : List ℕ
  pub front_length : length front ≡ inner_hdr
  pub slotted : Slotted page front (map inner_cell_bytes cells)
  pub is_inner : node_type page ≡ type_inner
  pub ncells : ncells_of page ≡ length cells
  pub rightmost_is : inner_rightmost page ≡ rightmost

length-inner_front : (n rightmost : ℕ) → length (inner_front n rightmost) ≡ 12
length-inner_front n rightmost = omega (
  arith,
  length-append (le_bytes 2 n) (le_bytes 8 rightmost ++ []),
  length-append (le_bytes 8 rightmost) [],
  length-le_bytes 2 n,
  length-le_bytes 8 rightmost,
)

Slotted→InnerPage :
    (page : List ℕ) (cells : List InnerCell) (rightmost : ℕ)
    → length page < 2 ^ 16
    → length cells < 2 ^ 16
    → IsU64 rightmost
    → Slotted page (inner_front (length cells) rightmost) (map inner_cell_bytes cells)
    → InnerPage page cells rightmost
unfolding node_type
Slotted→InnerPage page cells rightmost small hn hr s =
    let front : List ℕ = inner_front (length cells) rightmost in
    let blocks : List (List ℕ) = map inner_cell_bytes cells in
    let rest : List ℕ = concat blocks ++ (s.gap ++ pointers (length front) blocks []) in
    let n : List ℕ = le_bytes 2 (length cells) in
    let r : List ℕ = le_bytes 8 rightmost in
    let whole : page ≡ type_inner ∷ 0 ∷ (n ++ (r ++ rest)) =
      s.shape
      ∙ append_assoc front (concat blocks) _
      ∙ ap (λ (l : List ℕ). type_inner ∷ 0 ∷ l) (append_assoc n (r ++ []) rest)
      ∙ ap (λ (l : List ℕ). type_inner ∷ 0 ∷ (n ++ (l ++ rest))) (append-nil r) in
    record {
      small = small;
      front = front;
      front_length = length-inner_front (length cells) rightmost;
      slotted = s;
      is_inner = ap (λ (l : List ℕ). get_or l 0 0) whole;
      ncells = ap ncells_of whole ∙ header_ncells type_inner 0 (length cells) (r ++ rest) hn;
      rightmost_is =
          ap inner_rightmost whole ∙ header_rightmost type_inner 0 (length cells) rightmost rest hr;
    }

encode_inner-Slotted :
    (cells : List InnerCell) (rightmost : ℕ) (body page : List ℕ)
    → All IsInnerCell cells
    → encode_inner cells rightmost body ≡ some page
    → (2 * length cells ≤ length body)
      × (length page ≡ length body)
      × Slotted page (inner_front (length cells) rightmost) (map inner_cell_bytes cells)
unfolding encode_inner inner_header
encode_inner-Slotted cells rightmost body page h e =
    let n : ℕ = length cells in
    let content_end : ℕ = inner_hdr + sum_of inner_cell_size cells in
    let blocks : List (List ℕ) = map inner_cell_bytes cells in
    let sizes = length-inner_blocks cells h in
    let front : List ℕ = inner_front n rightmost in
    let fs = map (λ d. write_inner_cell_at d.key d.child) cells in
    elim (Bool-cases (ltb (length body) (content_end + 2 * n))) [
      | inl t ↦ absurd (ground (arith, t))
      | inr f ↦
          let room = ltb-false (length body) (content_end + 2 * n) f in
          let header : write_all body (inner_header n rightmost) ≡ front ++ drop 12 body =
            write_all-contents body (inner_header n rightmost) 12
              (omega (arith, length-le_bytes 2 n, length-le_bytes 8 rightmost)) (omega arith) in
          let made = some-injective _ page (rw f at e) in
          let shaped = ap (fill_gap content_end n) (
            write_inner_cells-slots 0 cells (write_all body (inner_header n rightmost), inner_hdr)
            ∙ ap (λ (b : List ℕ). slots 0 fs (b, inner_hdr)) header) in
          let front_is = length-inner_front n rightmost in
          let (s, total) =
            fill_gap-Slotted fs blocks front (drop 12 body) inner_hdr n content_end
              (inner-AllPuts cells) (omega (arith, front_is))
              (sym (length-map inner_cell_bytes cells)) (omega (arith, front_is, sizes))
              (omega (arith, sizes, length-drop 12 body, length-map inner_cell_bytes cells)) in
          let same : _ ≡ page = sym shaped ∙ made in
          (
            omega arith,
            ap (λ (l : List ℕ). length l) (sym same)
                ∙ total
                ∙ omega (arith, front_is, length-append front (drop 12 body), length-drop 12 body),
            subst (λ (q : List ℕ). Slotted q front blocks) same s,
          )
    ]

-- The page of an inner node that fits is one with its cells and its rightmost child.
pub encode_inner-InnerPage :
    (cells : List InnerCell) (rightmost : ℕ) (body page : List ℕ)
    → All IsInnerCell cells
    → IsU64 rightmost
    → length body < 2 ^ 16
    → encode_inner cells rightmost body ≡ some page
    → InnerPage page cells rightmost
encode_inner-InnerPage cells rightmost body page h hr small e =
    let (room, total, s) = encode_inner-Slotted cells rightmost body page h e in
    Slotted→InnerPage page cells rightmost (omega arith) (omega arith) hr s
