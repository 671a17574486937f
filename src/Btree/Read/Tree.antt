-- ===== src/Btree/Read/Tree.antt =====
-- The tree under a page of a source: its height, and its entries in order. A leaf is a page that
-- holds its cells; an inner node is a page with the children between its separators.
use arkeion.Common.{ℕ, zero, suc, ◌≡◌, List, [], ◌∷◌, ◌++◌, All, none}
use arkeion.Common.LexOrder.{Below}
use arkeion.Error.{ok}
use arkeion.Btree.Node.{LeafCell, InnerCell}
use arkeion.Btree.Node.Parse.RoundTrip.{Ordered, leaf_keys, inner_keys}
use arkeion.Btree.Node.InnerPage.{IsInnerCell, InnerPage}
use arkeion.Btree.Node.LeafPage.{IsLeafCell, LeafPage}
use arkeion.Btree.Read.{Source}

abbrev pub AllBelow : List ℕ → List LeafCell → Type 0
AllBelow sep es = All (λ e. Below e.key sep) es

abbrev pub NoneBelow : List ℕ → List LeafCell → Type 0
NoneBelow sep es = All (λ e. ¬ (Below e.key sep)) es

-- The entries of the children: before each separator those below it, and none below it behind.
pub record Split (sep : List ℕ) (es : List LeafCell) (P Q : List LeafCell → Type 0) : Type 0 where
  pub left : List LeafCell
  pub right : List LeafCell
  pub joined : es ≡ left ++ right
  pub below : AllBelow sep left
  pub above : NoneBelow sep right
  pub first : P left
  pub later : Q right

abbrev pub Children : (ℕ → List LeafCell → Type 0) → List InnerCell → ℕ → List LeafCell → Type 0
Children P [] rightmost es = P rightmost es
Children P (c ∷ cells) rightmost es = Split c.key es (P c.child) (Children P cells rightmost)

module _ (src : Source) where
  pub record LeafAt (id : ℕ) (es : List LeafCell) : Type 0 where
    pub body : List ℕ
    pub read : src id ≡ ok body
    pub prefix : List ℕ
    pub page : LeafPage body es prefix
    pub fits : All IsLeafCell es
    pub ordered : Ordered none (leaf_keys es)

  pub record InnerAt (P : ℕ → List LeafCell → Type 0) (id : ℕ) (es : List LeafCell) : Type 0 where
    pub body : List ℕ
    pub read : src id ≡ ok body
    pub cells : List InnerCell
    pub rightmost : ℕ
    pub page : InnerPage body cells rightmost
    pub fits : All IsInnerCell cells
    pub ordered : Ordered none (inner_keys cells)
    pub children : Children P cells rightmost es

  unfoldable pub IsTree : ℕ → ℕ → List LeafCell → Type 0
  IsTree zero id es = LeafAt id es
  IsTree (suc h) id es = InnerAt (IsTree h) id es
