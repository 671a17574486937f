-- ===== src/Btree/Scan/Children.antt =====
-- The children of an inner node that a cursor still has to visit.
use arkeion.Common.{
  ℕ, zero, suc, ◌≤◌, ◌<◌, ◌≡◌, refl, sym, ◌∙◌, ap, arith, true, false, none, some, List, [], ◌∷◌,
  ◌++◌, append-nil, length, Bool-cases, inl, inr,
}
use mathlib.Core.Path.{subst}
use mathlib.Core.Bool.{false≢true}
use arkeion.Common.LexOrder.{Below, Below-trans, lex-cases}
use arkeion.Btree.Node.{LeafCell, InnerCell}
use arkeion.Btree.Node.Search.{key_lt}
use arkeion.Btree.Node.Search.Bisect.{key_lt→Below, key_lt-Below}
use arkeion.Btree.Read.Tree.{AllBelow, NoneBelow, Children}
use arkeion.Btree.Write.{child_index}
use arkeion.Btree.Scan.{Start, first_child, child_at}

-- The entries of the children from an index on; behind the rightmost there are none.
abbrev pub Later : (ℕ → List LeafCell → Type 0) → List InnerCell → ℕ → ℕ → List LeafCell → Type 0
Later P cells rightmost zero fs = Children P cells rightmost fs
Later P [] rightmost (suc i) fs = fs ≡ []
Later P (c ∷ cells) rightmost (suc i) fs = Later P cells rightmost i fs

-- The entries from the first one that is not below a key on.
abbrev pub skip : List ℕ → List LeafCell → List LeafCell
skip key [] = []
skip key (e ∷ es) = elim (key_lt e.key key) [ true ↦ skip key es | false ↦ e ∷ es ]

abbrev pub since : Start → List LeafCell → List LeafCell
since none es = es
since (some key) es = skip key es

skip_less :
    (key sep : List ℕ) (left right : List LeafCell)
    → AllBelow sep left
    → ¬ (Below key sep)
    → skip key (left ++ right) ≡ skip key right
skip_less key sep [] right h high = refl
skip_less key sep (e ∷ left) right (b, h) high =
    let less : Below e.key key = elim (lex-cases key sep) [
      | inl (low, l) ↦ absurd (high low)
      | inr (inl (same, l)) ↦ subst (λ (k : List ℕ). Below e.key k) (sym same) b
      | inr (inr (over, l)) ↦ Below-trans e.key sep key b over
    ] in
    rw (skip, key_lt-Below e.key key less) (skip_less key sep left right h high)

skip_more :
    (key sep : List ℕ) (right : List LeafCell)
    → NoneBelow sep right
    → Below key sep
    → skip key right ≡ right
skip_more key sep [] h low = refl
skip_more key sep (e ∷ right) (n, h) low = elim (Bool-cases (key_lt e.key key)) [
  | inl t ↦ absurd (n (Below-trans e.key key sep (key_lt→Below e.key key t) low))
  | inr f ↦ rw (skip, f) refl
]

skip-append :
    (key sep : List ℕ) (left right : List LeafCell)
    → NoneBelow sep right
    → Below key sep
    → skip key (left ++ right) ≡ skip key left ++ right
skip-append key sep [] right h low = skip_more key sep right h low
skip-append key sep (e ∷ left) right h low = elim (Bool-cases (key_lt e.key key)) [
  | inl t ↦ rw (skip, t) (skip-append key sep left right h low)
  | inr f ↦ rw (skip, f) refl
]

child_index-first :
    (c : InnerCell) (cells : List InnerCell) (key : List ℕ)
    → key_lt key c.key ≡ true
    → child_index (c ∷ cells) key ≡ 0
unfolding child_index
child_index-first c cells key t = rw (child_index, t) refl

child_index-behind :
    (c : InnerCell) (cells : List InnerCell) (key : List ℕ)
    → key_lt key c.key ≡ false
    → child_index (c ∷ cells) key ≡ suc (child_index cells key)
unfolding child_index
child_index-behind c cells key f = rw (child_index, f) refl

child_index-nil : (key : List ℕ) → child_index [] key ≡ 0
unfolding child_index
child_index-nil key = refl

module _ (P : ℕ → List LeafCell → Type 0) where
  -- The entries of the child at an index, and those behind it.
  pub record Visit (cells : List InnerCell) (rightmost i : ℕ) (start : Start) (fs : List LeafCell)
      : Type 0 where
    pub here : List LeafCell
    pub behind : List LeafCell
    pub joined : since start fs ≡ since start here ++ behind
    pub child : P (child_at cells rightmost i) here
    pub later : Later P cells rightmost (suc i) behind

  pub Later-Visit :
      (cells : List InnerCell) (rightmost i : ℕ) (fs : List LeafCell)
      → Later P cells rightmost i fs
      → i ≤ length cells
      → Visit cells rightmost i none fs
  Later-Visit [] rightmost zero fs h le = record {
    here = fs;
    behind = [];
    joined = sym (append-nil fs);
    child = h;
    later = refl;
  }
  Later-Visit [] rightmost (suc i) fs h le = absurd (omega (arith, le))
  Later-Visit (c ∷ cells) rightmost zero fs h le = record {
    here = h.left;
    behind = h.right;
    joined = h.joined;
    child = h.first;
    later = h.later;
  }
  Later-Visit (c ∷ cells) rightmost (suc i) fs h le =
      let v = Later-Visit cells rightmost i fs h (omega (arith, le)) in
      record {
        here = v.here;
        behind = v.behind;
        joined = v.joined;
        child = v.child;
        later = v.later;
      }

  pub Later-end :
      (cells : List InnerCell) (rightmost i : ℕ) (fs : List LeafCell)
      → Later P cells rightmost i fs
      → length cells < i
      → fs ≡ []
  Later-end cells rightmost zero fs h lt = absurd (omega (arith, lt))
  Later-end [] rightmost (suc i) fs h lt = h
  Later-end (c ∷ cells) rightmost (suc i) fs h lt =
      Later-end cells rightmost i fs h (omega (arith, lt))

  pub Children-Visit :
      (cells : List InnerCell) (rightmost : ℕ) (start : Start) (fs : List LeafCell)
      → Children P cells rightmost fs
      → Visit cells rightmost (first_child start cells) start fs
  Children-Visit cells rightmost none fs h = Later-Visit cells rightmost 0 fs h (omega arith)
  Children-Visit [] rightmost (some key) fs h = rw (child_index-nil key) (record {
    here = fs;
    behind = [];
    joined = sym (append-nil (skip key fs));
    child = h;
    later = refl;
  })
  Children-Visit (c ∷ cells) rightmost (some key) fs h = elim (Bool-cases (key_lt key c.key)) [
    | inl t ↦ rw (child_index-first c cells key t) (record {
      here = h.left;
      behind = h.right;
      joined =
          ap (skip key) h.joined
          ∙ skip-append key c.key h.left h.right h.above (key_lt→Below key c.key t);
      child = h.first;
      later = h.later;
    })
    | inr f ↦
        let v = Children-Visit cells rightmost (some key) h.right h.later in
        let high : ¬ (Below key c.key) = λ b. false≢true (sym f ∙ key_lt-Below key c.key b) in
        rw (child_index-behind c cells key f) (record {
          here = v.here;
          behind = v.behind;
          joined =
              ap (skip key) h.joined ∙ skip_less key c.key h.left h.right h.below high ∙ v.joined;
          child = v.child;
          later = v.later;
        })
  ]
