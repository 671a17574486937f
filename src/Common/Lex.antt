-- ===== src/Common/Lex.antt =====
-- The lexicographic order of byte strings, as `<[u8] as Ord>::cmp`, and how it behaves under
-- concatenation.
use Prim.Native.Nat.{ℕ, zero, suc, ◌/◌, ◌%◌, ◌^◌, ◌<◌, compare, Ordering}
use Prim.Native.Nat.Ordering.{lt, eq, gt}
use mathlib.Core.Path.{◌≡◌, refl, ap, sym, ◌∙◌}
use mathlib.Core.Logic.{◌⊎◌}
use mathlib.Core.List.{List, [], ◌∷◌, ◌++◌}
use native.Mathlib.Omega.{arith}
use native.Mathlib.Nat.{pow-suc}
use arkeion.Common.Lists.{length}
use arkeion.Common.Words.{be_bytes, length-be_bytes}

-- `Ordering::then`
abbrev pub then_cmp : Ordering → Ordering → Ordering
then_cmp lt o = lt
then_cmp eq o = o
then_cmp gt o = gt

abbrev pub lex : List ℕ → List ℕ → Ordering
lex [] [] = eq
lex [] (y ∷ ys) = lt
lex (x ∷ xs) [] = gt
lex (x ∷ xs) (y ∷ ys) = then_cmp (compare x y) (lex xs ys)

pub then_cmp_assoc : (a b c : Ordering) → then_cmp (then_cmp a b) c ≡ then_cmp a (then_cmp b c)
then_cmp_assoc lt b c = refl
then_cmp_assoc eq b c = refl
then_cmp_assoc gt b c = refl

pub then_cmp-eq : (a : Ordering) → then_cmp a eq ≡ a
then_cmp-eq lt = refl
then_cmp-eq eq = refl
then_cmp-eq gt = refl

pub compare_refl : (a : ℕ) → compare a a ≡ eq
compare_refl a = ground arith

pub lex_same_head : (x : ℕ) (xs ys : List ℕ) → lex (x ∷ xs) (x ∷ ys) ≡ lex xs ys
lex_same_head x xs ys = rw (compare_refl x)

-- Strings of one length compare first, and what follows them after.
pub lex-append :
    (p q xs ys : List ℕ)
    → length p ≡ length q
    → lex (p ++ xs) (q ++ ys) ≡ then_cmp (lex p q) (lex xs ys)
lex-append [] [] xs ys e = refl
lex-append [] (b ∷ q) xs ys e = absurd (omega arith)
lex-append (a ∷ p) [] xs ys e = absurd (omega arith)
lex-append (a ∷ p) (b ∷ q) xs ys e =
    ap (then_cmp (compare a b)) (lex-append p q xs ys (omega arith))
    ∙ sym (then_cmp_assoc (compare a b) (lex p q) (lex xs ys))

compare_digits :
    (a b : ℕ) → then_cmp (compare (a / 256) (b / 256)) (compare (a % 256) (b % 256)) ≡ compare a b
compare_digits a b = ground arith

-- Big-endian words compare as their numbers.
pub lex-be_bytes :
    (w a b : ℕ) → a < 256 ^ w → b < 256 ^ w → lex (be_bytes w a) (be_bytes w b) ≡ compare a b
unfolding be_bytes
lex-be_bytes zero a b ha hb = ground arith
lex-be_bytes (suc w) a b ha hb =
    lex-append (be_bytes w (a / 256)) (be_bytes w (b / 256)) (a % 256 ∷ []) (b % 256 ∷ [])
      (length-be_bytes w (a / 256) ∙ sym (length-be_bytes w (b / 256)))
    ∙ rw
        (lex-be_bytes w (a / 256) (b / 256) (omega (arith, pow-suc 256 w))
          (omega (arith, pow-suc 256 w)))
        (rw (then_cmp-eq (compare (a % 256) (b % 256))) (compare_digits a b))

-- The three outcomes of a comparison, with what each says.
pub compare-cases :
    (a b : ℕ)
    → ((a < b) × (compare a b ≡ lt))
      ⊎ ((a ≡ b) × (compare a b ≡ eq))
      ⊎ ((b < a) × (compare a b ≡ gt))
compare-cases a b = ground arith

pub compare-lt : (a b : ℕ) → a < b → compare a b ≡ lt
compare-lt a b h = ground arith

pub compare-gt : (a b : ℕ) → b < a → compare a b ≡ gt
compare-gt a b h = ground arith
