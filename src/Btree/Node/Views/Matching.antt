-- ===== src/Btree/Node/Views/Matching.antt =====
-- The pass over keys in order that calls a function where a key has a prefix, and which keys have it.
use arkeion.Common.{
  ℕ, ◌≡◌, refl, sym, ◌∙◌, true, false, inl, inr, Bool-cases, Option, some, List, [], ◌∷◌, All, drop,
}
use mathlib.Core.Bool.{false≢true}
use arkeion.Common.Fields.{starts_with}
use arkeion.Common.LexOrder.{Below, Below-trans}
use arkeion.Error.{Result, ok, ◌>>=◌}
use arkeion.Btree.Node.Parse.RoundTrip.{Ordered, follows-Below}
use arkeion.Btree.Node.Search.{key_lt}
use arkeion.Btree.Node.Search.Bisect.{leading, key_lt→Below, key_lt-Below}
use arkeion.Btree.Node.Views.StartsWith.{starts_with-Below, starts_with-above}

module _ {ℓ} {S : Type ℓ} (f : S → List ℕ → Result S) (prefix : List ℕ) where
  -- The function on the keys that have the prefix, one after the other.
  abbrev pub matching : List (List ℕ) → S → Result S
  matching [] s = ok s
  matching (k ∷ ks) s = elim (starts_with k prefix) [
    | false ↦ matching ks s
    | true ↦ f s k >>= λ s. matching ks s
  ]

  pub matching-none :
      (ks : List (List ℕ)) (s : S)
      → All (λ k. starts_with k prefix ≡ false) ks
      → matching ks s ≡ ok s
  matching-none [] s h = refl
  matching-none (k ∷ ks) s (h, hs) = rw (matching, h) (matching-none ks s hs)

  -- The keys before the lower bound do not have the prefix.
  pub matching-leading :
      (ks : List (List ℕ)) (s : S)
      → matching ks s ≡ matching (drop (leading (λ k. key_lt k prefix) ks) ks) s
  matching-leading [] s = refl
  matching-leading (k ∷ ks) s = elim (Bool-cases (key_lt k prefix)) [
    | inl t ↦
        let none = starts_with-Below k prefix (key_lt→Below k prefix t) in
        rw (t, matching, none) (matching-leading ks s)
    | inr n ↦ rw n refl
  ]

  -- Keys in order behind one that is not before the prefix.
  high_above :
      (k : List ℕ) (ks : List (List ℕ))
      → Ordered (some k) ks
      → ¬ (Below k prefix)
      → All (λ l. ¬ (Below l prefix)) ks
  high_above k [] o high = tt
  high_above k (l ∷ ks) (full, next, o) high =
      let over : ¬ (Below l prefix) =
        λ b. high (Below-trans k l prefix (follows-Below k l next) b) in
      (over, high_above l ks o over)

  pub none_above :
      (k : List ℕ) (ks : List (List ℕ))
      → Ordered (some k) ks
      → ¬ (Below k prefix)
      → starts_with k prefix ≡ false
      → All (λ l. starts_with l prefix ≡ false) ks
  none_above k [] o high other = tt
  none_above k (l ∷ ks) (full, next, o) high other =
      let b = follows-Below k l next in
      let here = starts_with-above prefix k l high other b in
      (here, none_above l ks o (λ c. high (Below-trans k l prefix b c)) here)

  pub leading-high :
      (last : Option (List ℕ)) (ks : List (List ℕ))
      → Ordered last ks
      → All (λ l. ¬ (Below l prefix)) (drop (leading (λ k. key_lt k prefix) ks) ks)
  leading-high last [] o = tt
  leading-high last (k ∷ ks) (full, next, o) = elim (Bool-cases (key_lt k prefix)) [
    | inl t ↦ rw t (leading-high (some k) ks o)
    | inr n ↦
        let high : ¬ (Below k prefix) = λ b. false≢true (sym n ∙ key_lt-Below k prefix b) in
        rw n (high, high_above k ks o high)
  ]

  pub leading-Ordered :
      (last : Option (List ℕ)) (ks : List (List ℕ))
      → Ordered last ks
      → (l : Option (List ℕ)) × Ordered l (drop (leading (λ k. key_lt k prefix) ks) ks)
  leading-Ordered last [] o = (last, tt)
  leading-Ordered last (k ∷ ks) (full, next, o) = elim (Bool-cases (key_lt k prefix)) [
    | inl t ↦ rw t (leading-Ordered (some k) ks o)
    | inr n ↦ rw n (last, (full, next, o))
  ]
