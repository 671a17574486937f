-- ===== src/Common/LexOrder.antt =====
-- The order of byte strings as a relation: what each outcome of `lex` says, and its transitivity.
use Prim.Native.Nat.{ℕ, ◌<◌}
use Prim.Native.Nat.Ordering.{lt, eq, gt}
use mathlib.Core.Path.{◌≡◌, refl, ap, ap₂, sym, ◌∙◌, subst}
use mathlib.Core.Logic.{◌⊎◌, inl, inr}
use mathlib.Core.List.{List, [], ◌∷◌, ◌++◌}
use native.Mathlib.Omega.{arith}
use arkeion.Common.Lex.{then_cmp, lex, lex-append, compare-cases}

-- `a` comes before `b`.
abbrev pub Below : List ℕ → List ℕ → Type 0
Below [] [] = ⊥
Below [] (y ∷ ys) = Unit
Below (x ∷ xs) [] = ⊥
Below (x ∷ xs) (y ∷ ys) = (x < y) ⊎ ((x ≡ y) × Below xs ys)

pub lex-cases :
    (a b : List ℕ)
    → (Below a b × (lex a b ≡ lt)) ⊎ ((a ≡ b) × (lex a b ≡ eq)) ⊎ (Below b a × (lex a b ≡ gt))
lex-cases [] [] = inr (inl (refl, refl))
lex-cases [] (y ∷ ys) = inl (tt, refl)
lex-cases (x ∷ xs) [] = inr (inr (tt, refl))
lex-cases (x ∷ xs) (y ∷ ys) = elim (compare-cases x y) [
  | inl (h, c) ↦ inl (inl h, ap (λ o. then_cmp o (lex xs ys)) c)
  | inr (inr (h, c)) ↦ inr (inr (inl h, ap (λ o. then_cmp o (lex xs ys)) c))
  | inr (inl (h, c)) ↦ elim (lex-cases xs ys) [
    | inl (r, e) ↦ inl (inr (h, r), rw c e)
    | inr (inl (r, e)) ↦ inr (inl (ap₂ (λ (z : ℕ) (zs : List ℕ). z ∷ zs) h r, rw c e))
    | inr (inr (r, e)) ↦ inr (inr (inr (sym h, r), rw c e))
  ]
]

pub Below-irrefl : (a : List ℕ) → ¬ (Below a a)
Below-irrefl [] h = h
Below-irrefl (x ∷ xs) (inl h) = absurd (omega arith)
Below-irrefl (x ∷ xs) (inr (e, h)) = Below-irrefl xs h

pub Below-trans : (a b c : List ℕ) → Below a b → Below b c → Below a c
Below-trans [] [] c h k = absurd h
Below-trans [] (y ∷ ys) [] h k = absurd k
Below-trans [] (y ∷ ys) (z ∷ zs) h k = tt
Below-trans (x ∷ xs) [] c h k = absurd h
Below-trans (x ∷ xs) (y ∷ ys) [] h k = absurd k
Below-trans (x ∷ xs) (y ∷ ys) (z ∷ zs) (inl h) (inl k) = inl (omega arith)
Below-trans (x ∷ xs) (y ∷ ys) (z ∷ zs) (inl h) (inr (e, k)) = inl (omega arith)
Below-trans (x ∷ xs) (y ∷ ys) (z ∷ zs) (inr (e, h)) (inl k) = inl (omega arith)
Below-trans (x ∷ xs) (y ∷ ys) (z ∷ zs) (inr (e, h)) (inr (e', k)) =
    inr (e ∙ e', Below-trans xs ys zs h k)

pub lex-Below : (a b : List ℕ) → Below a b → lex a b ≡ lt
lex-Below a b h = elim (lex-cases a b) [
  | inl (r, e) ↦ e
  | inr (inl (r, e)) ↦ absurd (Below-irrefl b (subst (λ (l : List ℕ). Below l b) r h))
  | inr (inr (r, e)) ↦ absurd (Below-irrefl a (Below-trans a b a h r))
]

pub lex-Above : (a b : List ℕ) → Below b a → lex a b ≡ gt
lex-Above a b h = elim (lex-cases a b) [
  | inl (r, e) ↦ absurd (Below-irrefl a (Below-trans a b a r h))
  | inr (inl (r, e)) ↦ absurd (Below-irrefl b (subst (λ (l : List ℕ). Below b l) r h))
  | inr (inr (r, e)) ↦ e
]

pub lex_refl : (a : List ℕ) → lex a a ≡ eq
lex_refl a = elim (lex-cases a a) [
  | inl (r, e) ↦ absurd (Below-irrefl a r)
  | inr (inl (r, e)) ↦ e
  | inr (inr (r, e)) ↦ absurd (Below-irrefl a r)
]

pub lex→Below : (a b : List ℕ) → lex a b ≡ lt → Below a b
lex→Below a b h = elim (lex-cases a b) [
  | inl (r, e) ↦ r
  | inr (inl (r, e)) ↦ absurd cc
  | inr (inr (r, e)) ↦ absurd cc
]

-- A shared prefix does not count.
pub lex-shared : (p a b : List ℕ) → lex (p ++ a) (p ++ b) ≡ lex a b
lex-shared p a b = lex-append p p a b refl ∙ ap (λ o. then_cmp o (lex a b)) (lex_refl p)

pub Below-shared : (p a b : List ℕ) → Below (p ++ a) (p ++ b) → Below a b
Below-shared p a b h = lex→Below a b (sym (lex-shared p a b) ∙ lex-Below (p ++ a) (p ++ b) h)
