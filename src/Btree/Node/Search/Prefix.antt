-- ===== src/Btree/Node/Search/Prefix.antt =====
-- The comparison of a target with the common prefix of a leaf, and what is left to compare.
use arkeion.Common.{
  ℕ, zero, suc, ◌≤◌, ◌<◌, ◌≡◌, refl, ap, sym, ◌∙◌, arith, min, inl, inr, Bool-cases, List, [], ◌∷◌,
  ◌++◌, append_assoc, append-nil, length, length-append, length-take, length-drop, take, drop,
  take-append-drop, ltb,
}
use mathlib.Core.Path.{ap₂, subst}
use arkeion.Common.Lex.{lex, lex-append, then_cmp}
use arkeion.Common.LexOrder.{Below, lex-Below, lex-cases, lex→Below}
use arkeion.Btree.Node.{PrefixCmp, below, above, within, cmp_prefix}

-- What each outcome says of the keys with the prefix.
abbrev pub Compares : List ℕ → List ℕ → PrefixCmp → Type 0
Compares prefix target below = (s : List ℕ) → Below target (prefix ++ s)
Compares prefix target above = (s : List ℕ) → Below (prefix ++ s) target
Compares prefix target (within rest) = target ≡ prefix ++ rest

Below-front : (a b xs ys : List ℕ) → length a ≡ length b → Below a b → Below (a ++ xs) (b ++ ys)
Below-front a b xs ys e h =
    lex→Below (a ++ xs) (b ++ ys)
      (lex-append a b xs ys e ∙ ap (λ o. then_cmp o (lex xs ys)) (lex-Below a b h))

Below-longer : (xs ys : List ℕ) → 1 ≤ length ys → Below xs (xs ++ ys)
Below-longer [] [] h = absurd (omega arith)
Below-longer [] (y ∷ ys) h = tt
Below-longer (x ∷ xs) ys h = inr (refl, Below-longer xs ys h)

take_whole : (n : ℕ) (xs : List ℕ) → length xs ≤ n → take n xs ≡ xs
take_whole n xs h =
    sym (append-nil _)
    ∙ ap (λ (t : List ℕ). take n xs ++ t) (sym (nothing n xs h))
    ∙ take-append-drop n xs
  where
    nothing : (n : ℕ) (xs : List ℕ) → length xs ≤ n → drop n xs ≡ []
    nothing zero [] h = refl
    nothing (suc n) [] h = refl
    nothing zero (x ∷ xs) h = absurd (omega arith)
    nothing (suc n) (x ∷ xs) h = nothing n xs (omega arith)

pub cmp_prefix-Compares :
    (prefix target : List ℕ) → Compares prefix target (cmp_prefix prefix target)
unfolding cmp_prefix
cmp_prefix-Compares prefix target =
    let n : ℕ = min (length prefix) (length target) in
    let front : List ℕ = take n target in
    let head : List ℕ = take n prefix in
    let same : length front ≡ length head =
      omega (arith, length-take n target, length-take n prefix) in
    let whole : (s : List ℕ) → head ++ (drop n prefix ++ s) ≡ prefix ++ s = λ s.
      sym (append_assoc head (drop n prefix) s)
      ∙ ap (λ (l : List ℕ). l ++ s) (take-append-drop n prefix) in
    let outcome : (o : PrefixCmp)
        → cmp_prefix prefix target ≡ o
        → Compares prefix target o
        → Compares prefix target (cmp_prefix prefix target) =
      λ o e h. subst (Compares prefix target) (sym e) h in
    elim (lex-cases front head) [
      | inl (h, e) ↦ outcome below (rw (cmp_prefix, e) refl) λ s.
          subst (λ (t : List ℕ). Below t (prefix ++ s)) (take-append-drop n target)
            (subst (Below (front ++ drop n target)) (whole s)
              (Below-front front head (drop n target) (drop n prefix ++ s) same h))
      | inr (inr (h, e)) ↦ outcome above (rw (cmp_prefix, e) refl) λ s.
          subst (Below (prefix ++ s)) (take-append-drop n target) (
            subst (λ (t : List ℕ). Below t (front ++ drop n target)) (whole s)
              (Below-front head front (drop n prefix ++ s) (drop n target) (sym same) h))
      | inr (inl (h, e)) ↦ elim (Bool-cases (ltb (length target) (length prefix))) [
        | inl t ↦ outcome below (rw (cmp_prefix, e, t) refl) λ s.
            let less : length target < length prefix = ground (arith, t) in
            subst (λ (x : List ℕ). Below x (prefix ++ s))
              (sym h ∙ take_whole n target (omega arith))
              (subst (Below head) (whole s) (
                Below-longer head (drop n prefix ++ s)
                  (omega (arith, length-append (drop n prefix) s, length-drop n prefix))))
        | inr f ↦ outcome (within (drop (length prefix) target)) (rw (cmp_prefix, e, f) refl) (
            let more : length prefix ≤ length target = ground (arith, f) in
            let count : n ≡ length prefix = omega arith in
            sym (take-append-drop n target)
            ∙ ap₂ (λ (a b : List ℕ). a ++ b) (h ∙ take_whole n prefix (omega arith))
                (ap (λ (k : ℕ). drop k target) count))
      ]
    ]
