-- ===== src/Btree/Read/Children.antt =====
-- The entries of the child of an inner node that a key is searched in.
use arkeion.Common.{ℕ, ◌≡◌, refl, ap, sym, ◌∙◌, inl, inr, Bool-cases, none, List, [], ◌∷◌, ◌++◌}
use mathlib.Core.Path.{subst}
use mathlib.Core.Bool.{false≢true}
use arkeion.Common.LexOrder.{Below, lex-cases}
use arkeion.Btree.Node.{LeafCell, InnerCell}
use arkeion.Btree.Node.Search.{key_lt}
use arkeion.Btree.Node.Search.Bisect.{key_lt→Below, key_lt-Below}
use arkeion.Btree.Node.Search.Inner.{child_of}
use arkeion.Btree.Node.Search.Lookup.{lookup}
use arkeion.Btree.Read.Tree.{AllBelow, NoneBelow, Children}

-- A key above all the entries, or below all of them, is not among them.
lookup_more :
    (sep key : List ℕ) (es : List LeafCell)
    → AllBelow sep es
    → ¬ (Below key sep)
    → lookup es key ≡ none
lookup_more sep key [] h above = refl
lookup_more sep key (e ∷ es) (b, h) above = elim (lex-cases e.key key) [
  | inl (r, l) ↦ rw (lookup, l) (lookup_more sep key es h above)
  | inr (inl (same, l)) ↦ absurd (above (subst (λ (k : List ℕ). Below k sep) same b))
  | inr (inr (r, l)) ↦ rw (lookup, l) (lookup_more sep key es h above)
]

lookup_less :
    (sep key : List ℕ) (es : List LeafCell)
    → NoneBelow sep es
    → Below key sep
    → lookup es key ≡ none
lookup_less sep key [] h below = refl
lookup_less sep key (e ∷ es) (n, h) below = elim (lex-cases e.key key) [
  | inl (r, l) ↦ rw (lookup, l) (lookup_less sep key es h below)
  | inr (inl (same, l)) ↦ absurd (n (subst (λ (k : List ℕ). Below k sep) (sym same) below))
  | inr (inr (r, l)) ↦ rw (lookup, l) (lookup_less sep key es h below)
]

lookup-append_none :
    (es fs : List LeafCell) (key : List ℕ)
    → lookup es key ≡ none
    → lookup (es ++ fs) key ≡ lookup fs key
lookup-append_none [] fs key h = refl
lookup-append_none (e ∷ es) fs key h = elim (lex-cases e.key key) [
  | inl (r, l) ↦ rw (lookup, l) (lookup-append_none es fs key (rw (lookup, l) at h))
  | inr (inl (same, l)) ↦ let no = rw (lookup, l) at h in absurd cc
  | inr (inr (r, l)) ↦ rw (lookup, l) (lookup-append_none es fs key (rw (lookup, l) at h))
]

lookup-append_right :
    (es fs : List LeafCell) (key : List ℕ)
    → lookup fs key ≡ none
    → lookup (es ++ fs) key ≡ lookup es key
lookup-append_right [] fs key h = h
lookup-append_right (e ∷ es) fs key h = elim (lex-cases e.key key) [
  | inl (r, l) ↦ rw (lookup, l) (lookup-append_right es fs key h)
  | inr (inl (same, l)) ↦ rw (lookup, l) refl
  | inr (inr (r, l)) ↦ rw (lookup, l) (lookup-append_right es fs key h)
]

-- The entries of the child that a key is searched in.
pub Children-child_of :
    (P : ℕ → List LeafCell → Type 0) (cells : List InnerCell) (rightmost : ℕ) (es : List LeafCell)
    (key : List ℕ)
    → Children P cells rightmost es
    → (fs : List LeafCell) × P (child_of cells rightmost key) fs × (lookup es key ≡ lookup fs key)
Children-child_of P [] rightmost es key h = (es, h, refl)
Children-child_of P (c ∷ cells) rightmost es key h = elim (Bool-cases (key_lt key c.key)) [
  | inl t ↦
      let absent = lookup_less c.key key h.right h.above (key_lt→Below key c.key t) in
      (
        h.left,
        rw t h.first,
        ap (λ (l : List LeafCell). lookup l key) h.joined
            ∙ lookup-append_right h.left h.right key absent,
      )
  | inr f ↦
      let (fs, p, e) = Children-child_of P cells rightmost h.right key h.later in
      let high : ¬ (Below key c.key) = λ b. false≢true (sym f ∙ key_lt-Below key c.key b) in
      let absent = lookup_more c.key key h.left h.below high in
      (
        fs,
        rw f p,
        ap (λ (l : List LeafCell). lookup l key) h.joined
            ∙ lookup-append_none h.left h.right key absent
            ∙ e,
      )
]
