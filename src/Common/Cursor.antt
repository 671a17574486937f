-- ===== src/Common/Cursor.antt =====
-- A read position in a byte buffer, as the decoders carry it: `*buf.get(pos)?` and
-- `buf.get(a..b)?`, and the fact that from `pos` on the buffer reads `rest`.
use Prim.Native.Nat.{ℕ, ◌+◌, ◌-◌, ◌≤◌}
use mathlib.Core.Path.{◌≡◌, refl, ap, sym, ◌∙◌}
use mathlib.Core.Bool.{◌&&◌}
use mathlib.Core.List.{List, [], ◌∷◌, ◌++◌, append_assoc}
use mathlib.Core.Option.{Option, none, some}
use native.Mathlib.Omega.{arith}
use arkeion.Common.Tests.{leb, le→leb, if◌then◌else◌}
use arkeion.Common.Lists.{
  length, get_elem?, take, drop, length-append, length-take, length-drop, get_elem?-append_length,
  take-append_length, drop-append_length,
}

-- `buf.get(a..b)`: `None` if the range is reversed or passes the end.
abbrev pub get_range? {ℓ} : {A : Type ℓ} → List A → ℕ → ℕ → Option (List A)
get_range? buf a b =
    if leb a b && leb b (length buf) then some (take (b - a) (drop a buf)) else none

-- The first `pos` bytes are read, and `rest` is still to come.
pub record At {ℓ} {A : Type ℓ} (buf : List A) (pos : ℕ) (rest : List A) : Type ℓ where
  pub before : List A
  pub splits : buf ≡ before ++ rest
  pub length_before : pos ≡ length before

module _ {ℓ} {A : Type ℓ} where
  pub At-start : (buf : List A) → At buf 0 buf
  At-start buf = record { before = []; splits = refl; length_before = refl }

  pub At-append :
      (buf xs rest : List A) (pos : ℕ) → At buf pos (xs ++ rest) → At buf (pos + length xs) rest
  At-append buf xs rest pos h = record {
    before = h.before ++ xs;
    splits = h.splits ∙ sym (append_assoc h.before xs rest);
    length_before = omega (arith, h.length_before, length-append h.before xs);
  }

  pub At-cons :
      (buf : List A) (x : A) (rest : List A) (pos : ℕ)
      → At buf pos (x ∷ rest)
      → At buf (pos + 1) rest
  At-cons buf x rest pos h = At-append buf (x ∷ []) rest pos h

  pub At-get_elem? :
      (buf : List A) (x : A) (rest : List A) (pos : ℕ)
      → At buf pos (x ∷ rest)
      → get_elem? buf pos ≡ some x
  At-get_elem? buf x rest pos h =
      ap (λ b. get_elem? b pos) h.splits
      ∙ get_elem?-append_length h.before x rest pos h.length_before

  -- At the end of the buffer nothing is left.
  pub At-length : (buf rest : List A) (pos : ℕ) → At buf pos rest → pos + length rest ≡ length buf
  At-length buf rest pos h =
      omega (
        arith,
        h.length_before,
        ap (λ (b : List A). length b) h.splits,
        length-append h.before rest,
      )

  pub At-get_range? :
      (buf xs rest : List A) (pos end : ℕ)
      → At buf pos (xs ++ rest)
      → end ≡ pos + length xs
      → get_range? buf pos end ≡ some xs
  At-get_range? buf xs rest pos end h e =
      let whole : end ≤ length buf =
        omega (arith, At-length buf (xs ++ rest) pos h, length-append xs rest) in
      rw (le→leb pos end (omega arith), le→leb end (length buf) whole) (ap some content)
    where
      content : take (end - pos) (drop pos buf) ≡ xs
      content =
          ap (λ b. take (end - pos) (drop pos b)) h.splits
          ∙ ap (λ b. take (end - pos) b)
              (drop-append_length h.before (xs ++ rest) pos h.length_before)
          ∙ take-append_length xs rest (end - pos) (omega arith)

-- The other way: a range that is read lies within the buffer.
pub get_range?-bounds :
    {A : Type 0} (buf xs : List A) (a b : ℕ)
    → get_range? buf a b ≡ some xs
    → (a ≤ b) × (b ≤ length buf)
get_range?-bounds buf xs a b e = ground arith

pub get_range?-length :
    {A : Type 0} (buf xs : List A) (a b : ℕ) → get_range? buf a b ≡ some xs → length xs ≡ b - a
get_range?-length buf xs a b e =
    ground
      (arith, get_range?-bounds buf xs a b e, length-take (b - a) (drop a buf), length-drop a buf)
