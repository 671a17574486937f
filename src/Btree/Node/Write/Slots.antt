-- ===== src/Btree/Node/Write/Slots.antt =====
-- The shape of a written node: the cells from the front, zeros in the gap, and from the end the
-- pointers to the cells, the first one last. It is stated for any blocks of bytes.
use arkeion.Common.{
  ℕ, ◌+◌, ◌-◌, ◌*◌, ◌≤◌, ◌≡◌, ap, sym, ◌∙◌, arith, List, [], ◌∷◌, ◌++◌, append_assoc, append-nil,
  length, length-append, length-take, length-drop, take, drop, take-append-drop, take-append_length,
  drop-append_length,
}
use mathlib.Core.Path.{ap₂}
use arkeion.Common.Words.{le_bytes, length-le_bytes}
use arkeion.Common.Fields.{write_at}
use arkeion.Btree.Node.{set_cell_ptr}
use arkeion.Btree.Node.Write.{Cursor, put}
use arkeion.Btree.Node.Write.Cells.{Puts}

abbrev pub concat : List (List ℕ) → List ℕ
concat [] = []
concat (x ∷ xs) = x ++ concat xs

-- The pointers to blocks that start at `off`, in front of those that are written already.
abbrev pub pointers : ℕ → List (List ℕ) → List ℕ → List ℕ
pointers off [] back = back
pointers off (x ∷ xs) back = pointers (off + length x) xs (le_bytes 2 off ++ back)

pub length-pointers :
    (off : ℕ) (xs : List (List ℕ)) (back : List ℕ)
    → length (pointers off xs back) ≡ 2 * length xs + length back
length-pointers off [] back = omega arith
length-pointers off (x ∷ xs) back = omega (
  arith,
  length-pointers (off + length x) xs (le_bytes 2 off ++ back),
  length-append (le_bytes 2 off) back,
  length-le_bytes 2 off,
)

-- A write over as many bytes.
pub write_at-same :
    (front old back x : List ℕ) (p : ℕ)
    → p ≡ length front
    → length old ≡ length x
    → write_at (front ++ (old ++ back)) p x ≡ front ++ (x ++ back)
unfolding write_at
write_at-same front old back x p e h =
    ap₂ (λ (f t : List ℕ). f ++ (x ++ t)) (take-append_length front (old ++ back) p e)
      (ap (drop (p + length x)) (sym (append_assoc front old back))
        ∙ drop-append_length (front ++ old) back (p + length x)
            (omega (arith, length-append front old)))

module _ (front mid back x : List ℕ) (h : length x ≤ length mid) where
  -- A write behind the front.
  pub write_at-front :
      (p : ℕ)
      → p ≡ length front
      → write_at (front ++ (mid ++ back)) p x ≡ (front ++ x) ++ (drop (length x) mid ++ back)
  write_at-front p e =
      let old : List ℕ = take (length x) mid in
      let rest : List ℕ = drop (length x) mid in
      let split : mid ++ back ≡ old ++ (rest ++ back) =
        ap (λ (m : List ℕ). m ++ back) (sym (take-append-drop (length x) mid))
        ∙ append_assoc old rest back in
      ap (λ (b : List ℕ). write_at (front ++ b) p x) split
      ∙ write_at-same front old (rest ++ back) x p e (omega (arith, length-take (length x) mid))
      ∙ sym (append_assoc front x (rest ++ back))

  -- A write in front of the back.
  write_at-back :
      (p : ℕ)
      → p + length x ≡ length front + length mid
      → write_at (front ++ (mid ++ back)) p x
        ≡ front ++ (take (length mid - length x) mid ++ (x ++ back))
  write_at-back p e =
      let keep : List ℕ = take (length mid - length x) mid in
      let old : List ℕ = drop (length mid - length x) mid in
      let split : front ++ (mid ++ back) ≡ (front ++ keep) ++ (old ++ back) =
        ap (λ (m : List ℕ). front ++ (m ++ back))
          (sym (take-append-drop (length mid - length x) mid))
        ∙ ap (λ (m : List ℕ). front ++ m) (append_assoc keep old back)
        ∙ sym (append_assoc front keep (old ++ back)) in
      let place : p ≡ length (front ++ keep) =
        omega (arith, length-append front keep, length-take (length mid - length x) mid) in
      ap (λ (b : List ℕ). write_at b p x) split
      ∙ write_at-same (front ++ keep) old back x p place
          (omega (arith, length-drop (length mid - length x) mid))
      ∙ append_assoc front keep (x ++ back)

-- The loops of the encoders: each step is given as what it writes.
unfoldable pub slots : ℕ → List (Cursor → Cursor) → Cursor → Cursor
slots i [] c = c
slots i (f ∷ fs) (body, off) = slots (i + 1) fs (f (set_cell_ptr body i off, off))

abbrev pub AllPuts : List (Cursor → Cursor) → List (List ℕ) → Type 0
AllPuts [] [] = Unit
AllPuts (f ∷ fs) (x ∷ xs) = Puts f x × AllPuts fs xs
AllPuts _ _ = ⊥

pub set_cell_ptr-back :
    (front mid back : List ℕ) (i off : ℕ)
    → length back ≡ 2 * i
    → 2 ≤ length mid
    → set_cell_ptr (front ++ (mid ++ back)) i off
      ≡ front ++ (take (length mid - length (le_bytes 2 off)) mid ++ (le_bytes 2 off ++ back))
unfolding set_cell_ptr
set_cell_ptr-back front mid back i off b h =
    let two = length-le_bytes 2 off in
    write_at-back front mid back (le_bytes 2 off) (omega (arith, two)) _
      (omega (arith, two, length-append front (mid ++ back), length-append mid back))

-- After the loop: the blocks behind the front, less of the middle, and the pointers.
pub record Filled (front mid back : List ℕ) (off : ℕ) (xs : List (List ℕ)) (c : Cursor)
    : Type 0 where
  pub gap : List ℕ
  pub length_gap : length gap + length (concat xs) + 2 * length xs ≡ length mid
  pub page : c ≡ ((front ++ concat xs) ++ (gap ++ pointers off xs back), off + length (concat xs))

pub slots-Filled :
    (fs : List (Cursor → Cursor)) (xs : List (List ℕ)) (i off : ℕ) (front mid back : List ℕ)
    → AllPuts fs xs
    → off ≡ length front
    → length back ≡ 2 * i
    → length (concat xs) + 2 * length xs ≤ length mid
    → Filled front mid back off xs (slots i fs (front ++ (mid ++ back), off))
unfolding slots put Puts
slots-Filled [] [] i off front mid back puts e b room = record {
  gap = mid;
  length_gap = omega arith;
  page =
      ap₂ (λ (l : List ℕ) (n : ℕ). (l ++ (mid ++ back), n)) (sym (append-nil front)) (omega arith);
}
slots-Filled (f ∷ fs) (x ∷ xs) i off front mid back (put_x, puts) e b room =
    let ptr : List ℕ = le_bytes 2 off in
    let two = length-le_bytes 2 off in
    let sizes = length-append x (concat xs) in
    let keep : List ℕ = take (length mid - length ptr) mid in
    let short = length-take (length mid - length ptr) mid in
    let rest : List ℕ = drop (length x) keep in
    let body : List ℕ = front ++ (mid ++ back) in
    let fits : off + length x ≤ length (front ++ (keep ++ (ptr ++ back))) = omega (
      arith,
      two,
      sizes,
      short,
      length-append front (keep ++ (ptr ++ back)),
      length-append keep (ptr ++ back),
    ) in
    let pointed : set_cell_ptr body i off ≡ front ++ (keep ++ (ptr ++ back)) =
      set_cell_ptr-back front mid back i off b (omega (arith, two, room)) in
    let written : f (set_cell_ptr body i off, off)
        ≡ ((front ++ x) ++ (rest ++ (ptr ++ back)), off + length x) =
      ap (λ (l : List ℕ). f (l, off)) pointed
      ∙ put_x (front ++ (keep ++ (ptr ++ back))) off fits
      ∙ ap (λ (l : List ℕ). (l, off + length x))
          (write_at-front front keep (ptr ++ back) x (omega (arith, two, sizes, short, room)) off
            e) in
    let later =
      slots-Filled fs xs (i + 1) (off + length x) (front ++ x) rest (ptr ++ back) puts
        (omega (arith, length-append front x)) (omega (arith, two, length-append ptr back))
        (omega (arith, two, sizes, short, length-drop (length x) keep)) in
    record {
      gap = later.gap;
      length_gap = omega (arith, two, sizes, short, length-drop (length x) keep, later.length_gap);
      page =
          ap (slots (i + 1) fs) written
          ∙ later.page
          ∙ ap₂
              (λ (l : List ℕ) (n : ℕ).
                (l ++ (later.gap ++ pointers (off + length x) xs (ptr ++ back)), n))
              (append_assoc front x (concat xs)) (omega (arith, sizes));
    }
slots-Filled [] (x ∷ xs) i off front mid back puts e b room = absurd puts
slots-Filled (f ∷ fs) [] i off front mid back puts e b room = absurd puts
