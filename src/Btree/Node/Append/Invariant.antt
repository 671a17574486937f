-- ===== src/Btree/Node/Append/Invariant.antt =====
-- A leaf page that `leaf_append` changes is again a leaf page, with one more cell.
use arkeion.Common.{
  ℕ, ◌+◌, ◌-◌, ◌*◌, ◌^◌, ◌≤◌, ◌<◌, ◌≡◌, refl, ap, sym, ◌∙◌, arith, true, false, inl, inr,
  Bool-cases, Option, none, some, List, [], ◌∷◌, ◌++◌, map, All, All-append, length, length-append,
  length-map, drop, ltb, ltb-false,
}
use mathlib.Core.Path.{subst}
use arkeion.Common.Fields.{starts_with, write_at}
use arkeion.Error.{Result, ok, ◌>>=◌}
use arkeion.Btree.Node.{Payload, LeafCell, ncells_of}
use arkeion.Btree.Node.Write.{encode_leaf_cell}
use arkeion.Btree.Node.Write.Slots.{concat, pointers, length-pointers}
use arkeion.Btree.Node.Write.Pages.{Slotted, Slotted-start}
use arkeion.Btree.Node.Parse.{is_empty_key}
use arkeion.Btree.Node.Parse.RoundTrip.{Ordered, leaf_block, leaf_keys, HasPrefix}
use arkeion.Btree.Node.LeafPage.{
  IsLeafCell, LeafPage, leaf_front, length-leaf_front, Slotted→LeafPage,
}
use arkeion.Btree.Node.Append.{leaf_append, skip_cells, is_last, count_cell}
use arkeion.Btree.Node.Append.Places.{count_cell-Slotted, length-count_cell}
use arkeion.Btree.Node.Append.Cells.{
  starts_with-append, last_suffix, skip_cells-concat, Ordered-append,
}

page_of : Result (Option (List ℕ × ℕ)) → List ℕ
page_of (ok (some (after, free))) = after
page_of _ = []

map-append :
    {A B : Type 0} (f : A → B) (xs : List A) (x : A)
    → map f (xs ++ (x ∷ [])) ≡ map f xs ++ (f x ∷ [])
map-append f [] x = refl
map-append f (y ∷ xs) x = ap (λ l. f y ∷ l) (map-append f xs x)

length-Slotted :
    (page front : List ℕ) (xs : List (List ℕ)) (s : Slotted page front xs)
    → length page ≡ length front + length (concat xs) + length s.gap + 2 * length xs
length-Slotted page front xs s =
    ap (λ (l : List ℕ). length l) s.shape
    ∙ omega (
      arith,
      length-append (front ++ concat xs) (s.gap ++ pointers (length front) xs []),
      length-append front (concat xs),
      length-append s.gap (pointers (length front) xs []),
      length-pointers (length front) xs [],
    )

module _ (page : ℕ) (body : List ℕ) (cells : List LeafCell) (prefix key : List ℕ)
    (payload : Payload) (h : All IsLeafCell cells) (p : LeafPage body cells prefix) where
  -- The scan.
  pub scanned :
      skip_cells page body (length cells) (length p.front) none
      ≡ ok (
        length p.front + length (concat (map (leaf_block (length prefix)) cells)),
        last_suffix (length prefix) none cells,
      )
  scanned =
      let small = p.small in
      let (rest, at) =
        Slotted-start body p.front (map (leaf_block (length prefix)) cells) p.slotted
          (length p.front) refl in
      skip_cells-concat page body (length prefix) cells (length p.front) none rest (omega arith) h
        at

  -- The steps of an append that succeeds.
  pub record Appended (after : List ℕ) : Type 0 where
    pub shares : starts_with key prefix ≡ true
    pub order : is_last (last_suffix (length prefix) none cells) (drop (length prefix) key) ≡ true
    pub end : ℕ
    pub end_is : end ≡ length p.front + length (concat (map (leaf_block (length prefix)) cells))
    pub room :
        end + length (encode_leaf_cell (drop (length prefix) key) payload)
        ≤ length body - 2 * (length cells + 1)
    pub made :
        count_cell
          (write_at body end (encode_leaf_cell (drop (length prefix) key) payload))
          (length cells)
          end
        ≡ after

  leaf_append-Appended :
      (after : List ℕ) (free : ℕ)
      → leaf_append page body key payload ≡ ok (some (after, free))
      → Appended after
  unfolding leaf_append page_of
  leaf_append-Appended after free e =
      let stored : List ℕ = drop (length prefix) key in
      let cell : List ℕ = encode_leaf_cell stored payload in
      let n : ℕ = ncells_of body in
      let end : ℕ = length p.front + length (concat (map (leaf_block (length prefix)) cells)) in
      let last : Option (List ℕ) = last_suffix (length prefix) none cells in
      let found = ap (λ (k : ℕ). skip_cells page body k (length p.front) none) p.ncells ∙ scanned in
      let opened = rw (p.is_leaf, p.prefix_read page, ◌>>=◌) at e in
      elim (Bool-cases (starts_with key prefix)) [
        | inr f ↦ let no = rw f at opened in absurd cc
        | inl t ↦ elim (Bool-cases (is_last last stored)) [
          | inr f ↦ let no = rw (t, found, ◌>>=◌, f) at opened in absurd cc
          | inl l ↦ elim (Bool-cases (ltb (length body - 2 * (n + 1)) (end + length cell))) [
            | inl o ↦ let no = rw (t, found, ◌>>=◌, l, o) at opened in absurd cc
            | inr r ↦
                let result = rw (t, found, ◌>>=◌, l, r) at opened in
                let count = p.ncells in
                record {
                  shares = t;
                  order = l;
                  end = end;
                  end_is = refl;
                  room =
                      omega
                        (arith, ltb-false (length body - 2 * (n + 1)) (end + length cell) r, count);
                  made =
                      ap (λ (k : ℕ). count_cell (write_at body end cell) k end) (sym count)
                      ∙ ap page_of result;
                }
          ]
        ]
      ]

  abbrev appended_cell : LeafCell
  appended_cell = record { key = key; payload = payload }

  -- The cells of the page, and their bounds.
  Appended-Slotted :
      (after : List ℕ)
      → Appended after
      → Slotted after
          (leaf_front p.flags (length (cells ++ (appended_cell ∷ []))) ++ p.pblock)
          (map (leaf_block (length prefix)) (cells ++ (appended_cell ∷ [])))
        × (length after ≡ length body)
        × (length (cells ++ (appended_cell ∷ [])) < 2 ^ 16)
  Appended-Slotted after a =
      let plen : ℕ = length prefix in
      let n : ℕ = length cells in
      let cells' : List LeafCell = cells ++ (appended_cell ∷ []) in
      let blocks : List (List ℕ) = map (leaf_block plen) cells in
      let x : List ℕ = leaf_block plen appended_cell in
      let small = p.small in
      let front : List ℕ = leaf_front p.flags n ++ p.pblock in
      let front' : List ℕ = leaf_front p.flags (length cells') ++ p.pblock in
      let s = subst (λ (f : List ℕ). Slotted body f blocks) p.front_is p.slotted in
      let front_size = ap (λ (f : List ℕ). length f) p.front_is in
      let four = length-leaf_front p.flags n in
      let header = length-append (leaf_front p.flags n) p.pblock in
      let total : length body ≡ length front + length (concat blocks) + length s.gap + 2 * n =
        length-Slotted body front blocks s ∙ omega (arith, length-map (leaf_block plen) cells) in
      let sizes : a.end + length x + 2 * (n + 1) ≤ length body =
        omega (arith, a.room, a.end_is, front_size, four, header) in
      let made : List ℕ = count_cell (write_at body a.end x) n a.end in
      let slotted : Slotted made (leaf_front p.flags (n + 1) ++ p.pblock) (blocks ++ (x ∷ [])) =
        count_cell-Slotted body p.flags n p.pblock x blocks a.end
          (sym (length-map (leaf_block plen) cells)) (omega (arith, sizes)) s
          (a.end_is ∙ ap (λ (k : ℕ). k + length (concat blocks)) front_size)
          (omega (arith, sizes, total, a.end_is, front_size)) in
      let size =
        length-count_cell body x n a.end (omega (arith, sizes)) (omega (arith, sizes))
          (omega (arith, total, header, four)) in
      let more : n + 1 ≡ length cells' = omega (arith, length-append cells (appended_cell ∷ [])) in
      (
        subst (λ (q : List ℕ). Slotted q front' (map (leaf_block plen) cells')) a.made
            (subst (λ (xs : List (List ℕ)). Slotted made front' xs)
              (sym (map-append (leaf_block plen) cells appended_cell))
              (subst
                (λ (k : ℕ). Slotted made (leaf_front p.flags k ++ p.pblock) (blocks ++ (x ∷ [])))
                more slotted)),
        ap (λ (l : List ℕ). length l) (sym a.made) ∙ size,
        omega (arith, sizes, more),
      )

  -- An append of a cell whose key is not empty, to the page of a leaf with increasing keys, leaves
  -- the page of the leaf with the cell behind the others and with the same common prefix, and the
  -- keys still increase.
  pub leaf_append-LeafPage :
      (after : List ℕ) (free : ℕ)
      → Ordered none (leaf_keys cells)
      → is_empty_key key ≡ false
      → leaf_append page body key payload ≡ ok (some (after, free))
      → LeafPage after (cells ++ (appended_cell ∷ [])) prefix
        × Ordered none (leaf_keys (cells ++ (appended_cell ∷ [])))
  leaf_append-LeafPage after free o full e =
      let a = leaf_append-Appended after free e in
      let key_is = starts_with-append key prefix a.shares in
      let small = p.small in
      let (slotted, size, count) = Appended-Slotted after a in
      (
        Slotted→LeafPage after (cells ++ (appended_cell ∷ [])) prefix p.pblock p.flags
            (omega (arith, size)) count
            (All-append (HasPrefix prefix) cells (appended_cell ∷ []) p.keys (key_is, tt)) slotted
            p.reads,
        Ordered-append prefix (drop (length prefix) key) key payload cells full key_is p.keys o
            a.order,
      )
