-- ===== src/Btree/Node/Search/Lookup.antt =====
-- Searches in the cells of a leaf one after the other, and what the order of the keys says of them.
use Prim.Native.Nat.Ordering.{eq}
use arkeion.Common.{
  ℕ, zero, suc, ◌<◌, ◌≡◌, refl, arith, inl, inr, Option, none, some, List, [], ◌∷◌, get_elem?,
  get_elem?-map,
}
use mathlib.Core.Path.{subst}
use mathlib.Core.Option.{some-injective}
use arkeion.Common.Lex.{lex}
use arkeion.Common.LexOrder.{Below, lex-cases, lex-Below, lex_refl}
use arkeion.Btree.Node.{Payload, LeafCell}
use arkeion.Btree.Node.Parse.RoundTrip.{Ordered, leaf_keys}
use arkeion.Btree.Node.Search.Bisect.{Ordered-Below}

-- The linear search.
abbrev pub lookup : List LeafCell → List ℕ → Option Payload
lookup [] key = none
lookup (c ∷ cells) key = elim (lex c.key key) [ eq ↦ some c.payload | _ ↦ lookup cells key ]

pub lookup-hit :
    (cells : List LeafCell) (last : Option (List ℕ)) (i : ℕ) (c : LeafCell)
    → Ordered last (leaf_keys cells)
    → get_elem? cells i ≡ some c
    → lookup cells c.key ≡ some c.payload
lookup-hit [] last i c o e = cc
lookup-hit (d ∷ cells) last zero c o e =
    let same : d ≡ c = some-injective d c e in
    subst (λ (x : LeafCell). lookup (d ∷ cells) x.key ≡ some x.payload) same
      (rw (lookup, lex_refl d.key) refl)
lookup-hit (d ∷ cells) last (suc i) c (full, next, o) e =
    let less =
      Ordered-Below d.key c.key (leaf_keys cells) i o (get_elem?-map (λ x. x.key) cells i c e) in
    rw (lookup, lex-Below d.key c.key less) (lookup-hit cells (some d.key) i c o e)

pub lookup-miss :
    (cells : List LeafCell) (key : List ℕ)
    → ((i : ℕ) (c : LeafCell) → get_elem? cells i ≡ some c → ¬ (c.key ≡ key))
    → lookup cells key ≡ none
lookup-miss [] key h = refl
lookup-miss (c ∷ cells) key h =
    let rest = lookup-miss cells key (λ i d e. h (suc i) d e) in
    elim (lex-cases c.key key) [
      | inl (b, e) ↦ rw (lookup, e) rest
      | inr (inl (same, e)) ↦ absurd (h 0 c refl same)
      | inr (inr (b, e)) ↦ rw (lookup, e) rest
    ]

pub Ordered-increasing :
    (ks : List (List ℕ)) (last : Option (List ℕ)) (i j : ℕ) (a b : List ℕ)
    → Ordered last ks
    → get_elem? ks i ≡ some a
    → get_elem? ks j ≡ some b
    → i < j
    → Below a b
Ordered-increasing [] last i j a b o ea eb h = cc
Ordered-increasing (k ∷ ks) last i zero a b o ea eb h = absurd (omega arith)
Ordered-increasing (k ∷ ks) last zero (suc j) a b (full, next, o) ea eb h =
    subst (λ (l : List ℕ). Below l b) (some-injective k a ea) (Ordered-Below k b ks j o eb)
Ordered-increasing (k ∷ ks) last (suc i) (suc j) a b (full, next, o) ea eb h =
    Ordered-increasing ks (some k) i j a b o ea eb (omega arith)
