-- ===== src/Btree/Node/Append/Places.antt =====
-- The slotted cells of a page with one more block behind them.
use arkeion.Common.{
  ℕ, ◌+◌, ◌-◌, ◌*◌, ◌%◌, ◌^◌, ◌≤◌, ◌<◌, ◌≡◌, refl, ap, sym, ◌∙◌, arith, List, [], ◌∷◌, ◌++◌,
  append_assoc, append-nil, length, length-append, length-drop, take, drop,
}
use arkeion.Common.Words.{le_bytes, length-le_bytes}
use arkeion.Common.Fields.{write_at}
use arkeion.Btree.Node.{type_leaf, set_cell_ptr}
use arkeion.Btree.Node.Write.Cells.{length-write_at}
use arkeion.Btree.Node.Write.Slots.{
  concat, pointers, length-pointers, write_at-front, write_at-same, set_cell_ptr-back,
}
use arkeion.Btree.Node.Write.Pages.{Slotted}
use arkeion.Btree.Node.LeafPage.{leaf_front}
use arkeion.Btree.Node.Append.{count_cell}

pub concat-append : (xs : List (List ℕ)) (x : List ℕ) → concat (xs ++ (x ∷ [])) ≡ concat xs ++ x
concat-append [] x = append-nil x
concat-append (y ∷ xs) x =
    ap (λ (l : List ℕ). y ++ l) (concat-append xs x) ∙ sym (append_assoc y (concat xs) x)

pointers-append :
    (xs : List (List ℕ)) (x : List ℕ) (off : ℕ) (back : List ℕ)
    → pointers off (xs ++ (x ∷ [])) back
      ≡ le_bytes 2 (off + length (concat xs)) ++ pointers off xs back
pointers-append [] x off back = ap (λ (n : ℕ). le_bytes 2 n ++ back) (omega arith)
pointers-append (y ∷ xs) x off back =
    let total : off + length y + length (concat xs) ≡ off + length (y ++ concat xs) =
      omega (arith, length-append y (concat xs)) in
    pointers-append xs x (off + length y) (le_bytes 2 off ++ back)
    ∙ ap (λ (n : ℕ). le_bytes 2 n ++ pointers (off + length y) xs (le_bytes 2 off ++ back)) total

-- The count of the cells is changed in the header.
recounted :
    (flags n m : ℕ) (pblock rest : List ℕ)
    → write_at ((leaf_front flags n ++ pblock) ++ rest) 2 (le_bytes 2 m)
      ≡ (leaf_front flags m ++ pblock) ++ rest
recounted flags n m pblock rest =
    let two : List ℕ = type_leaf ∷ flags ∷ [] in
    let shape : (k : ℕ)
        → (leaf_front flags k ++ pblock) ++ rest ≡ two ++ (le_bytes 2 k ++ (pblock ++ rest)) =
      λ k.
        append_assoc (leaf_front flags k) pblock rest
        ∙ ap (λ (l : List ℕ). two ++ (l ++ (pblock ++ rest))) (append-nil (le_bytes 2 k)) in
    ap (λ (b : List ℕ). write_at b 2 (le_bytes 2 m)) (shape n)
    ∙ write_at-same two (le_bytes 2 n) (pblock ++ rest) (le_bytes 2 m) 2 refl
        (length-le_bytes 2 n ∙ sym (length-le_bytes 2 m))
    ∙ sym (shape m)

length-leaf_front_pblock :
    (flags n m : ℕ) (pblock : List ℕ)
    → length (leaf_front flags n ++ pblock) ≡ length (leaf_front flags m ++ pblock)
length-leaf_front_pblock flags n m pblock = omega (
  arith,
  length-append (leaf_front flags n) pblock,
  length-append (leaf_front flags m) pblock,
  length-append (le_bytes 2 n) [],
  length-append (le_bytes 2 m) [],
  length-le_bytes 2 n,
  length-le_bytes 2 m,
)

-- A block behind the others, its pointer in front of theirs, and the count.
pub count_cell-Slotted :
    (page : List ℕ) (flags n : ℕ) (pblock x : List ℕ) (xs : List (List ℕ)) (end : ℕ)
    → n ≡ length xs
    → n + 1 < 2 ^ 16
    → (s : Slotted page (leaf_front flags n ++ pblock) xs)
    → end ≡ length (leaf_front flags n ++ pblock) + length (concat xs)
    → length x + 2 ≤ length s.gap
    → Slotted
        (count_cell (write_at page end x) n end)
        (leaf_front flags (n + 1) ++ pblock)
        (xs ++ (x ∷ []))
unfolding count_cell
count_cell-Slotted page flags n pblock x xs end count fits s e room =
    let front : List ℕ = leaf_front flags n ++ pblock in
    let front' : List ℕ = leaf_front flags (n + 1) ++ pblock in
    let ptrs : List ℕ = pointers (length front) xs [] in
    let ptr : List ℕ = le_bytes 2 end in
    let mid : List ℕ = drop (length x) s.gap in
    let gap : List ℕ = take (length mid - length ptr) mid in
    let blocks : List ℕ = concat (xs ++ (x ∷ [])) in
    let written : write_at page end x ≡ ((front ++ concat xs) ++ x) ++ (mid ++ ptrs) =
      ap (λ (b : List ℕ). write_at b end x) s.shape
      ∙ write_at-front (front ++ concat xs) s.gap ptrs x (omega arith) end
          (e ∙ sym (length-append front (concat xs))) in
    let pointed : set_cell_ptr (write_at page end x) n end
        ≡ ((front ++ concat xs) ++ x) ++ (gap ++ (ptr ++ ptrs)) =
      ap (λ (b : List ℕ). set_cell_ptr b n end) written
      ∙ set_cell_ptr-back ((front ++ concat xs) ++ x) mid ptrs n end
          (omega (arith, length-pointers (length front) xs [], count))
          (omega (arith, length-drop (length x) s.gap, room)) in
    let joined : (front ++ concat xs) ++ x ≡ front ++ blocks =
      append_assoc front (concat xs) x
      ∙ ap (λ (l : List ℕ). front ++ l) (sym (concat-append xs x)) in
    let later : List ℕ = gap ++ (ptr ++ ptrs) in
    let small : (n + 1) % 2 ^ 16 ≡ n + 1 = omega (arith, fits) in
    let pointers_are : ptr ++ ptrs ≡ pointers (length front') (xs ++ (x ∷ [])) [] =
      ap (λ (o : ℕ). le_bytes 2 o ++ ptrs) e
      ∙ sym (pointers-append xs x (length front) [])
      ∙ ap (λ (o : ℕ). pointers o (xs ++ (x ∷ [])) [])
          (length-leaf_front_pblock flags n (n + 1) pblock) in
    record {
      gap = gap;
      shape =
          ap (λ (b : List ℕ). write_at b 2 (le_bytes 2 ((n + 1) % 2 ^ 16)))
            (pointed ∙ ap (λ (l : List ℕ). l ++ later) joined ∙ append_assoc front blocks later)
          ∙ ap (λ (k : ℕ). write_at (front ++ (blocks ++ later)) 2 (le_bytes 2 k)) small
          ∙ recounted flags n (n + 1) pblock (blocks ++ later)
          ∙ sym (append_assoc front' blocks later)
          ∙ ap (λ (l : List ℕ). (front' ++ blocks) ++ (gap ++ l)) pointers_are;
    }

pub length-count_cell :
    (page x : List ℕ) (n end : ℕ)
    → end + length x ≤ length page
    → 2 * (n + 1) ≤ length page
    → 4 ≤ length page
    → length (count_cell (write_at page end x) n end) ≡ length page
unfolding count_cell set_cell_ptr
length-count_cell page x n end h k four =
    let one = length-write_at page x end h in
    let ptr = length-le_bytes 2 end in
    let pointed : List ℕ =
      write_at (write_at page end x) (length (write_at page end x) - 2 * (n + 1))
        (le_bytes 2 end) in
    let two =
      length-write_at (write_at page end x) (le_bytes 2 end)
        (length (write_at page end x) - 2 * (n + 1)) (omega (arith, one, ptr)) in
    let count = length-le_bytes 2 ((n + 1) % 2 ^ 16) in
    length-write_at pointed (le_bytes 2 ((n + 1) % 2 ^ 16)) 2 (omega (arith, one, two, count))
    ∙ two
    ∙ one
