-- ===== src/Btree/Node/Views/StartsWith.antt =====
-- Prefixes of byte strings against their order, and against a shared prefix.
use arkeion.Common.{
  ℕ, ◌≤◌, ◌<◌, ◌≡◌, refl, ap, sym, ◌∙◌, arith, Bool, true, false, inl, inr, Bool-cases, List, [],
  ◌∷◌, ◌++◌, length, ◌==◌, ◌&&◌,
}
use arkeion.Common.Fields.{starts_with}
use arkeion.Common.LexOrder.{Below}

pub starts_with-shared : (p a b : List ℕ) → starts_with (p ++ a) (p ++ b) ≡ starts_with a b
starts_with-shared [] a b = refl
starts_with-shared (x ∷ p) a b =
    let same : (x == x) ≡ true = ground arith in rw same (starts_with-shared p a b)

pub starts_with-Below : (k prefix : List ℕ) → Below k prefix → starts_with k prefix ≡ false
starts_with-Below [] [] b = absurd b
starts_with-Below [] (p ∷ ps) b = refl
starts_with-Below (x ∷ xs) [] b = absurd b
starts_with-Below (x ∷ xs) (p ∷ ps) (inl less) =
    let other : (x == p) ≡ false = ground (arith, less) in rw other refl
starts_with-Below (x ∷ xs) (p ∷ ps) (inr (same, b)) =
    rw (starts_with-Below xs ps b) (and_false (x == p))
  where
    and_false : (b : Bool) → (b && false) ≡ false
    and_false true = refl
    and_false false = refl

-- Behind a string that is not before the prefix and does not have it, no string has it.
pub starts_with-above :
    (prefix k l : List ℕ)
    → ¬ (Below k prefix)
    → starts_with k prefix ≡ false
    → Below k l
    → starts_with l prefix ≡ false
starts_with-above [] k l high none b = cc
starts_with-above (p ∷ ps) [] l high none b = absurd (high tt)
starts_with-above (p ∷ ps) (x ∷ xs) [] high none b = refl
starts_with-above (p ∷ ps) (x ∷ xs) (y ∷ ys) high none (inl less) =
    let above : ¬ (x < p) = λ h. high (inl h) in
    let other : (y == p) ≡ false = ground (arith, less, above) in rw other refl
starts_with-above (p ∷ ps) (x ∷ xs) (y ∷ ys) high none (inr (same, b)) =
    elim (Bool-cases (x == p)) [
      | inl t ↦
          let e : x ≡ p = ground (arith, t) in
          let two : (y == p) ≡ true = ground (arith, e, same) in
          rw two (starts_with-above ps xs ys (λ h. high (inr (e, h))) (rw t at none) b)
      | inr f ↦
          let other : (y == p) ≡ false = sym (ap (λ (z : ℕ). z == p) same) ∙ f in rw other refl
    ]

pub starts_with-shorter :
    (lprefix prefix s : List ℕ)
    → length prefix ≤ length lprefix
    → starts_with (lprefix ++ s) prefix ≡ starts_with lprefix prefix
starts_with-shorter lprefix [] s h = refl
starts_with-shorter [] (p ∷ ps) s h = absurd (omega arith)
starts_with-shorter (l ∷ ls) (p ∷ ps) s h =
    ap (λ (b : Bool). (l == p) && b) (starts_with-shorter ls ps s (omega arith))

pub starts_with-longer :
    (lprefix prefix s : List ℕ)
    → length lprefix ≤ length prefix
    → starts_with prefix lprefix ≡ false
    → starts_with (lprefix ++ s) prefix ≡ false
starts_with-longer [] prefix s h none = cc
starts_with-longer (l ∷ ls) [] s h none = absurd (omega arith)
starts_with-longer (l ∷ ls) (p ∷ ps) s h none = elim (Bool-cases (p == l)) [
  | inl t ↦
      let two : (l == p) ≡ true = ground (arith, t) in
      rw two (starts_with-longer ls ps s (omega arith) (rw t at none))
  | inr f ↦ let other : (l == p) ≡ false = ground (arith, f) in rw other refl
]
