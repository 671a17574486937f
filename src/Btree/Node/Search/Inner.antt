-- ===== src/Btree/Node/Search/Inner.antt =====
-- The search of an inner node, on the page that `encode_inner` wrote: it is the linear search.
use arkeion.Common.{
  ℕ, zero, suc, ◌+◌, ◌^◌, ◌≤◌, ◌<◌, ◌≡◌, refl, ap, sym, arith, not, inl, inr, Bool-cases, none,
  some, List, [], ◌∷◌, ◌++◌, map, All, All-get_elem?, length, length-map, get_elem?, get_elem?-map,
  get_elem?-total, get_elem?-lt_length, ltb, if◌then◌else◌,
}
use mathlib.Core.Path.{subst}
use mathlib.Core.Option.{some-injective}
use arkeion.Common.Cursor.{At, At-length}
use arkeion.Common.Words.{IsU64, le_bytes}
use arkeion.Format.{put_varint}
use arkeion.Error.{ok}
use arkeion.Btree.Node.{InnerCell, cell_ptr, inner_key_at, get_u64}
use arkeion.Btree.Node.Write.{encode_inner}
use arkeion.Btree.Node.Write.Cells.{inner_cell_bytes}
use arkeion.Btree.Node.Write.Pages.{Slotted-At, Slotted-cell_ptr, place}
use arkeion.Btree.Node.Parse.Reads.{reads-prefixed, reads-u64}
use arkeion.Btree.Node.Parse.RoundTrip.{Ordered, inner_keys, inner_cell_bytes-append}
use arkeion.Btree.Node.InnerPage.{IsInnerCell, InnerPage, encode_inner-InnerPage}
use arkeion.Btree.Node.Search.{
  key_lt, inner_test, inner_child_value_at, inner_child_indexed, inner_child,
}
use arkeion.Btree.Node.Search.Bisect.{
  bisect-partition, leading, leading-length, leading-pass, at_most_key-IsInitial,
}

-- The linear search: the child of the first separator above the key, and its index.
abbrev pub child_of : List InnerCell → ℕ → List ℕ → ℕ
child_of [] rightmost key = rightmost
child_of (c ∷ cells) rightmost key =
    if key_lt key c.key then c.child else child_of cells rightmost key

abbrev pub separators_up_to : List InnerCell → List ℕ → ℕ
separators_up_to cells key = leading (λ k. not (key_lt key k)) (inner_keys cells)

child_at : List InnerCell → ℕ → ℕ → ℕ
child_at [] rightmost i = rightmost
child_at (c ∷ cells) rightmost zero = c.child
child_at (c ∷ cells) rightmost (suc i) = child_at cells rightmost i

child_at-separators_up_to :
    (cells : List InnerCell) (rightmost : ℕ) (key : List ℕ)
    → child_at cells rightmost (separators_up_to cells key) ≡ child_of cells rightmost key
unfolding child_at
child_at-separators_up_to [] rightmost key = refl
child_at-separators_up_to (c ∷ cells) rightmost key = elim (Bool-cases (key_lt key c.key)) [
  | inl t ↦ rw t refl
  | inr f ↦ rw f (child_at-separators_up_to cells rightmost key)
]

child_at-get_elem? :
    (cells : List InnerCell) (rightmost i : ℕ) (c : InnerCell)
    → get_elem? cells i ≡ some c
    → c.child ≡ child_at cells rightmost i
unfolding child_at
child_at-get_elem? [] rightmost i c e = cc
child_at-get_elem? (d ∷ cells) rightmost zero c e =
    ap (λ (x : InnerCell). x.child) (sym (some-injective d c e))
child_at-get_elem? (d ∷ cells) rightmost (suc i) c e = child_at-get_elem? cells rightmost i c e

child_at-end :
    (cells : List InnerCell) (rightmost i : ℕ)
    → length cells ≤ i
    → rightmost ≡ child_at cells rightmost i
unfolding child_at
child_at-end [] rightmost i h = refl
child_at-end (c ∷ cells) rightmost zero h = absurd (omega arith)
child_at-end (c ∷ cells) rightmost (suc i) h = child_at-end cells rightmost i (omega arith)

module _ (page : ℕ) (body : List ℕ) (cells : List InnerCell) (rightmost : ℕ)
    (h : All IsInnerCell cells) (p : InnerPage body cells rightmost) where
  -- A cell is read by its pointer.
  reads-inner_cell :
      (i : ℕ) (c : InnerCell)
      → get_elem? cells i ≡ some c
      → (pos : ℕ) × (inner_key_at page body (cell_ptr body i) ≡ ok (c.key, pos))
        × (get_u64 page body pos ≡ ok (c.child, pos + 8))
  unfolding inner_key_at
  reads-inner_cell i c e =
      let small = p.small in
      let blocks : List (List ℕ) = map inner_cell_bytes cells in
      let off : ℕ = place (length p.front) blocks i in
      let (rest, at) =
        Slotted-At body p.front blocks p.slotted i (inner_cell_bytes c)
          (get_elem?-map inner_cell_bytes cells i c e) in
      let there = At-length body (inner_cell_bytes c ++ rest) off at in
      let ptr : cell_ptr body i ≡ off =
        Slotted-cell_ptr body p.front blocks p.slotted i
          (omega (arith, get_elem?-lt_length cells i c e, length-map inner_cell_bytes cells))
          (omega arith) in
      let here : At body off
          (put_varint (length c.key) ++ (c.key ++ (le_bytes 8 c.child ++ rest))) =
        subst (λ (l : List ℕ). At body off l) (inner_cell_bytes-append c rest) at in
      let (number, bytes, behind) =
        reads-prefixed page body (omega arith) c.key (le_bytes 8 c.child ++ rest) off here in
      let (child, after) =
        reads-u64 page body (omega arith) rest _ c.child (All-get_elem? IsInnerCell cells i c h e).1
          behind in
      (_, rw (ptr, number) bytes, child)

  reads-child_value_at :
      (i : ℕ) → inner_child_value_at page body i ≡ ok (child_at cells rightmost i)
  unfolding inner_child_value_at
  reads-child_value_at i = elim (Bool-cases (ltb i (length cells))) [
    | inl t ↦
        let (c, e) = get_elem?-total cells i (ground (arith, t)) in
        let (pos, key_read, child_read) = reads-inner_cell i c e in
        rw (p.ncells, t, key_read, child_read) (ap ok (child_at-get_elem? cells rightmost i c e))
    | inr f ↦
        rw (p.ncells, f, p.rightmost_is)
          (ap ok (child_at-end cells rightmost i (ground (arith, f))))
  ]

  pub inner_child_indexed-InnerPage :
      (key : List ℕ)
      → Ordered none (inner_keys cells)
      → inner_child_indexed page body key
        ≡ ok (child_of cells rightmost key, separators_up_to cells key)
  unfolding inner_child_indexed inner_test
  inner_child_indexed-InnerPage key o =
      let idx : ℕ = separators_up_to cells key in
      let tests : (i : ℕ) → i < length cells → inner_test page body key i ≡ ok (ltb i idx) =
        λ i inside.
          let (c, e) = get_elem?-total cells i inside in
          let (pos, key_read, child_read) = reads-inner_cell i c e in
          let passes =
            leading-pass (λ k. not (key_lt key k)) (inner_keys cells) none i c.key
              (at_most_key-IsInitial key) o (get_elem?-map (λ d. d.key) cells i c e) in
          rw key_read (ap ok passes) in
      let found =
        bisect-partition (inner_test page body key) (length cells) 0 (length cells) idx tests
          (omega arith)
          (omega (
            arith,
            leading-length (λ k. not (key_lt key k)) (inner_keys cells),
            length-map (λ (d : InnerCell). d.key) cells,
          ))
          (omega arith) in
      rw
        (
          p.is_inner,
          p.ncells,
          found,
          reads-child_value_at idx,
          child_at-separators_up_to cells rightmost key,
        )
        refl

-- On the page of an inner node with increasing separators, the binary search for a key gives the
-- child of the first separator above the key, or the rightmost child, and the count of the
-- separators up to the key.
pub inner_child_indexed-encode_inner :
    (page : ℕ) (cells : List InnerCell) (rightmost : ℕ) (body written key : List ℕ)
    → All IsInnerCell cells
    → Ordered none (inner_keys cells)
    → IsU64 rightmost
    → length body < 2 ^ 16
    → encode_inner cells rightmost body ≡ some written
    → inner_child_indexed page written key
      ≡ ok (child_of cells rightmost key, separators_up_to cells key)
inner_child_indexed-encode_inner page cells rightmost body written key h o hr small e =
    inner_child_indexed-InnerPage page written cells rightmost h
      (encode_inner-InnerPage cells rightmost body written h hr small e) key o

pub inner_child-encode_inner :
    (page : ℕ) (cells : List InnerCell) (rightmost : ℕ) (body written key : List ℕ)
    → All IsInnerCell cells
    → Ordered none (inner_keys cells)
    → IsU64 rightmost
    → length body < 2 ^ 16
    → encode_inner cells rightmost body ≡ some written
    → inner_child page written key ≡ ok (child_of cells rightmost key)
unfolding inner_child
inner_child-encode_inner page cells rightmost body written key h o hr small e =
    rw (inner_child_indexed-encode_inner page cells rightmost body written key h o hr small e) refl
