-- ===== src/Btree/Node/Search/Bisect.antt =====
-- The binary search of a page finds the partition point of its test, and for keys in order that is
-- the count of the keys from the first on that pass the test.
use arkeion.Common.{
  ℕ, zero, suc, ◌+◌, ◌≤◌, ◌<◌, ◌≡◌, refl, ap, sym, ◌∙◌, arith, Bool, true, false, not, inl, inr,
  Bool-cases, Option, some, List, [], ◌∷◌, length, get_elem?, ltb, if◌then◌else◌,
}
use mathlib.Core.Bool.{false≢true}
use mathlib.Core.Path.{subst}
use mathlib.Core.Option.{some-injective}
use arkeion.Common.LexOrder.{Below, Below-trans, lex-Below}
use arkeion.Error.{Result, ok}
use arkeion.Btree.Node.Parse.RoundTrip.{Ordered, follows-Below}
use arkeion.Btree.Node.Search.{mid_of, bisect, key_lt}

-- As many rounds as the range is long are enough.
pub bisect-partition :
    (test : ℕ → Result Bool) (rounds lo hi p : ℕ)
    → ((i : ℕ) → i < hi → test i ≡ ok (ltb i p))
    → lo ≤ p
    → p ≤ hi
    → hi ≤ lo + rounds
    → bisect test rounds lo hi ≡ ok p
unfolding bisect
bisect-partition test zero lo hi p tests low high enough = ap ok (omega arith)
bisect-partition test (suc rounds) lo hi p tests low high enough = elim (Bool-cases (ltb lo hi)) [
  | inr f ↦ rw (bisect, f) (ap ok (ground (arith, f)))
  | inl t ↦
      let inside : lo < hi = ground (arith, t) in
      let mid : ℕ = mid_of lo hi in
      let tested = tests mid (omega arith) in
      elim (Bool-cases (ltb mid p)) [
        | inl right ↦
            let r : mid < p = ground (arith, right) in
            rw (bisect, t, tested, right)
              (bisect-partition test rounds (mid + 1) hi p tests (omega (arith, r)) high
                (omega arith))
        | inr left ↦
            let l : p ≤ mid = ground (arith, left) in
            rw (bisect, t, tested, left)
              (bisect-partition test rounds lo mid p (λ i h. tests i (omega arith)) low l
                (omega arith))
      ]
]

-- How many keys from the first on pass.
abbrev pub leading : (List ℕ → Bool) → List (List ℕ) → ℕ
leading pass [] = 0
leading pass (k ∷ ks) = if pass k then suc (leading pass ks) else 0

pub leading-length : (pass : List ℕ → Bool) (ks : List (List ℕ)) → leading pass ks ≤ length ks
leading-length pass [] = omega arith
leading-length pass (k ∷ ks) = ground (arith, leading-length pass ks)

-- The keys that pass come first.
abbrev pub IsInitial : (List ℕ → Bool) → Type 0
IsInitial pass = (a b : List ℕ) → Below a b → pass b ≡ true → pass a ≡ true

pub Ordered-Below :
    (a b : List ℕ) (ks : List (List ℕ)) (i : ℕ)
    → Ordered (some a) ks
    → get_elem? ks i ≡ some b
    → Below a b
Ordered-Below a b [] i o e = cc
Ordered-Below a b (k ∷ ks) zero (full, next, o) e =
    subst (λ (l : List ℕ). Below a l) (some-injective k b e) (follows-Below a k next)
Ordered-Below a b (k ∷ ks) (suc i) (full, next, o) e =
    Below-trans a k b (follows-Below a k next) (Ordered-Below k b ks i o e)

pub leading-pass :
    (pass : List ℕ → Bool) (ks : List (List ℕ)) (last : Option (List ℕ)) (i : ℕ) (k : List ℕ)
    → IsInitial pass
    → Ordered last ks
    → get_elem? ks i ≡ some k
    → pass k ≡ ltb i (leading pass ks)
leading-pass pass [] last i k initial o e = cc
leading-pass pass (a ∷ ks) last zero k initial o e =
    let same : a ≡ k = some-injective a k e in
    elim (Bool-cases (pass a)) [
      | inl t ↦ rw t (sym (ap pass same) ∙ t ∙ sym (ground arith))
      | inr f ↦ rw f (sym (ap pass same) ∙ f ∙ sym (ground arith))
    ]
leading-pass pass (a ∷ ks) last (suc i) k initial (full, next, o) e = elim (Bool-cases (pass a)) [
  | inl t ↦ rw t (leading-pass pass ks (some a) i k initial o e ∙ shift i (leading pass ks))
  | inr f ↦ rw f (elim (Bool-cases (pass k)) [
    | inl t ↦ absurd (false≢true (sym f ∙ initial a k (Ordered-Below a k ks i o e) t))
    | inr g ↦ g ∙ sym (above (suc i))
  ])
]
  where
    shift : (i n : ℕ) → ltb i n ≡ ltb (suc i) (suc n)
    shift i n = ground arith

    above : (i : ℕ) → ltb i 0 ≡ false
    above i = ground arith

-- The two tests of the searches.
pub key_lt→Below : (a b : List ℕ) → key_lt a b ≡ true → Below a b
key_lt→Below a b h = follows-Below a b h

pub key_lt-Below : (a b : List ℕ) → Below a b → key_lt a b ≡ true
key_lt-Below a b h = rw (key_lt, lex-Below a b h) refl

pub below_key-IsInitial : (key : List ℕ) → IsInitial (λ k. key_lt k key)
below_key-IsInitial key a b h pass =
    key_lt-Below a key (Below-trans a b key h (key_lt→Below b key pass))

pub at_most_key-IsInitial : (key : List ℕ) → IsInitial (λ k. not (key_lt key k))
at_most_key-IsInitial key a b h pass = elim (Bool-cases (key_lt key a)) [
  | inr f ↦ rw f refl
  | inl t ↦
      let more : key_lt key b ≡ true =
        key_lt-Below key b (Below-trans key a b (key_lt→Below key a t) h) in
      absurd (false≢true (sym (ap not more) ∙ pass))
]
