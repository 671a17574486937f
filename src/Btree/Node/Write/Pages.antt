-- ===== src/Btree/Node/Write/Pages.antt =====
-- A slotted page: what its pointers lead to.
use arkeion.Common.{
  ℕ, zero, suc, ◌+◌, ◌-◌, ◌*◌, ◌^◌, ◌≤◌, ◌<◌, ◌≡◌, refl, ap, sym, ◌∙◌, arith, some, List, [], ◌∷◌,
  ◌++◌, append_assoc, append-nil, length, length-append, length-replicate, replicate, get_elem?,
}
use mathlib.Core.Option.{some-injective}
use arkeion.Common.Words.{le_bytes, from_le, from_le-le_bytes, length-le_bytes}
use arkeion.Common.Cursor.{At}
use arkeion.Common.Fields.{write_at, At-slice}
use arkeion.Btree.Node.{cell_ptr}
use arkeion.Btree.Node.Write.{Cursor, fill_gap}
use arkeion.Btree.Node.Write.Slots.{
  concat, pointers, length-pointers, write_at-same, slots, AllPuts, slots-Filled,
}

-- The blocks behind the front, the gap and the pointers.
pub record Slotted (page front : List ℕ) (xs : List (List ℕ)) : Type 0 where
  pub gap : List ℕ
  pub shape : page ≡ (front ++ concat xs) ++ (gap ++ pointers (length front) xs [])

fill_gap_lem :
    (left gap ptrs : List ℕ) (content_end n o : ℕ)
    → content_end ≡ length left
    → length ptrs ≡ 2 * n
    → fill_gap content_end n (left ++ (gap ++ ptrs), o) ≡ left ++ (replicate (length gap) 0 ++ ptrs)
unfolding fill_gap
fill_gap_lem left gap ptrs content_end n o e h =
    let count : length (left ++ (gap ++ ptrs)) - 2 * n - content_end ≡ length gap =
      omega (arith, length-append left (gap ++ ptrs), length-append gap ptrs) in
    ap (λ (k : ℕ). write_at (left ++ (gap ++ ptrs)) content_end (replicate k 0)) count
    ∙ write_at-same left gap ptrs (replicate (length gap) 0) content_end e
        (sym (length-replicate (length gap) 0))

-- What `encode_leaf` and `encode_inner` do behind the header.
pub fill_gap-Slotted :
    (fs : List (Cursor → Cursor)) (xs : List (List ℕ)) (front rest : List ℕ) (off n content_end : ℕ)
    → AllPuts fs xs
    → off ≡ length front
    → n ≡ length xs
    → content_end ≡ length front + length (concat xs)
    → length (concat xs) + 2 * length xs ≤ length rest
    → Slotted (fill_gap content_end n (slots 0 fs (front ++ rest, off))) front xs
      × (length (fill_gap content_end n (slots 0 fs (front ++ rest, off))) ≡ length (front ++ rest))
fill_gap-Slotted fs xs front rest off n content_end puts e count end room =
    let whole : front ++ rest ≡ front ++ (rest ++ []) =
      ap (λ (l : List ℕ). front ++ l) (sym (append-nil rest)) in
    let filled = slots-Filled fs xs 0 off front rest [] puts e (omega arith) room in
    let zeros : List ℕ = replicate (length filled.gap) 0 in
    let shape =
      ap (λ (l : List ℕ). fill_gap content_end n (slots 0 fs (l, off))) whole
      ∙ ap (fill_gap content_end n) filled.page
      ∙ fill_gap_lem (front ++ concat xs) filled.gap (pointers off xs []) content_end n _
          (omega (arith, length-append front (concat xs)))
          (omega (arith, length-pointers off xs []))
      ∙ ap (λ (k : ℕ). (front ++ concat xs) ++ (zeros ++ pointers k xs [])) e in
    (
      record { gap = zeros; shape = shape },
      ap (λ (l : List ℕ). length l) shape
          ∙ omega (
            arith,
            length-append (front ++ concat xs) (zeros ++ pointers (length front) xs []),
            length-append front (concat xs),
            length-append zeros (pointers (length front) xs []),
            length-replicate {A = ℕ} (length filled.gap) 0,
            length-pointers (length front) xs [],
            length-append front rest,
            filled.length_gap,
          ),
    )

-- The place of a block, by its index.
abbrev pub place : ℕ → List (List ℕ) → ℕ → ℕ
place off [] i = off
place off (x ∷ xs) zero = off
place off (x ∷ xs) (suc i) = place (off + length x) xs i

record Pointed (ptrs back : List ℕ) (o i : ℕ) : Type 0 where
  pre : List ℕ
  post : List ℕ
  splits : ptrs ≡ pre ++ (le_bytes 2 o ++ post)
  length_post : length post ≡ 2 * i + length back

pointers-back :
    (off : ℕ) (xs : List (List ℕ)) (back : List ℕ)
    → (pre : List ℕ) × (pointers off xs back ≡ pre ++ back)
pointers-back off [] back = ([], refl)
pointers-back off (x ∷ xs) back =
    let (pre, e) = pointers-back (off + length x) xs (le_bytes 2 off ++ back) in
    (pre ++ le_bytes 2 off, e ∙ sym (append_assoc pre (le_bytes 2 off) back))

pointers-Pointed :
    (off : ℕ) (xs : List (List ℕ)) (back : List ℕ) (i : ℕ)
    → i < length xs
    → Pointed (pointers off xs back) back (place off xs i) i
pointers-Pointed off [] back i h = absurd (omega arith)
pointers-Pointed off (x ∷ xs) back zero h =
    let (pre, e) = pointers-back (off + length x) xs (le_bytes 2 off ++ back) in
    record { pre = pre; post = back; splits = e; length_post = omega arith }
pointers-Pointed off (x ∷ xs) back (suc i) h =
    let more = pointers-Pointed (off + length x) xs (le_bytes 2 off ++ back) i (omega arith) in
    record {
      pre = more.pre;
      post = more.post;
      splits = more.splits;
      length_post =
          omega
            (arith, more.length_post, length-append (le_bytes 2 off) back, length-le_bytes 2 off);
    }

concat-place :
    (off : ℕ) (xs : List (List ℕ)) (i : ℕ) (x : List ℕ)
    → get_elem? xs i ≡ some x
    → (before : List ℕ) × (after : List ℕ) × (concat xs ≡ before ++ (x ++ after))
      × (place off xs i ≡ off + length before)
concat-place off [] i x e = cc
concat-place off (y ∷ xs) zero x e =
    let same : y ≡ x = some-injective y x e in
    ([], concat xs, ap (λ (l : List ℕ). l ++ concat xs) same, omega arith)
concat-place off (y ∷ xs) (suc i) x e =
    let (before, after, splits, there) = concat-place (off + length y) xs i x e in
    (
      y ++ before,
      after,
      ap (λ (l : List ℕ). y ++ l) splits ∙ sym (append_assoc y before (x ++ after)),
      omega (arith, there, length-append y before),
    )

regroup : (a b c d e : List ℕ) → (a ++ (b ++ (c ++ d))) ++ e ≡ (a ++ b) ++ (c ++ (d ++ e))
regroup a b c d e =
    ap (λ (l : List ℕ). l ++ e) (sym (append_assoc a b (c ++ d)))
    ∙ append_assoc (a ++ b) (c ++ d) e
    ∙ ap (λ (l : List ℕ). (a ++ b) ++ l) (append_assoc c d e)

module _ (page front : List ℕ) (xs : List (List ℕ)) (s : Slotted page front xs) where
  -- From the first block on, and from each block on.
  pub Slotted-start : (off : ℕ) → off ≡ length front → (r : List ℕ) × At page off (concat xs ++ r)
  Slotted-start off e =
      let r : List ℕ = s.gap ++ pointers (length front) xs [] in
      (
        r,
        record {
          before = front;
          splits = s.shape ∙ append_assoc front (concat xs) r;
          length_before = e;
        },
      )

  pub Slotted-At :
      (i : ℕ) (x : List ℕ)
      → get_elem? xs i ≡ some x
      → (r : List ℕ) × At page (place (length front) xs i) (x ++ r)
  Slotted-At i x e =
      let tail : List ℕ = s.gap ++ pointers (length front) xs [] in
      let (before, after, splits, there) = concat-place (length front) xs i x e in
      (
        after ++ tail,
        record {
          before = front ++ before;
          splits =
              s.shape
              ∙ ap (λ (l : List ℕ). (front ++ l) ++ tail) splits
              ∙ regroup front before x after tail;
          length_before = omega (arith, there, length-append front before);
        },
      )

  -- The pointer of a block has its place, when places fit in two bytes.
  pub Slotted-cell_ptr :
      (i : ℕ)
      → i < length xs
      → place (length front) xs i < 2 ^ 16
      → cell_ptr page i ≡ place (length front) xs i
  unfolding cell_ptr
  Slotted-cell_ptr i h fits =
      let o : ℕ = place (length front) xs i in
      let p = pointers-Pointed (length front) xs [] i h in
      let there : At page (length page - 2 * (i + 1)) (le_bytes 2 o ++ p.post) = record {
        before = (front ++ concat xs) ++ (s.gap ++ p.pre);
        splits =
            s.shape
            ∙ ap (λ (l : List ℕ). (front ++ concat xs) ++ (s.gap ++ l)) p.splits
            ∙ ap (λ (l : List ℕ). (front ++ concat xs) ++ l) (sym (append_assoc s.gap p.pre _))
            ∙ sym (append_assoc (front ++ concat xs) (s.gap ++ p.pre) _);
        length_before = omega (
          arith,
          ap (λ (l : List ℕ). length l) s.shape,
          length-append (front ++ concat xs) (s.gap ++ pointers (length front) xs []),
          length-append s.gap (pointers (length front) xs []),
          ap (λ (l : List ℕ). length l) p.splits,
          length-append p.pre (le_bytes 2 o ++ p.post),
          length-append (le_bytes 2 o) p.post,
          length-le_bytes 2 o,
          p.length_post,
          length-append (front ++ concat xs) (s.gap ++ p.pre),
          length-append s.gap p.pre,
        );
      } in
      ap from_le
        (At-slice page (le_bytes 2 o) p.post _ _ there (omega (arith, length-le_bytes 2 o)))
      ∙ from_le-le_bytes 2 o (omega arith)
