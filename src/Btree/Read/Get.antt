-- ===== src/Btree/Read/Get.antt =====
-- Lookups in a tree against the search of its entries one after the other.
use Prim.Native.Nat.Ordering.{eq}
use arkeion.Common.{
  ℕ, zero, suc, ◌<◌, ◌≡◌, ◌≢◌, refl, ap, sym, ◌∙◌, arith, Bool, true, false, inl, inr, Option, none,
  some, List, [], ◌∷◌, ◌==◌,
}
use arkeion.Common.Lex.{lex}
use arkeion.Common.LexOrder.{lex-cases}
use arkeion.Error.{ok}
use arkeion.Btree.Loop.{Loop, ◌>>=◌, done}
use arkeion.Btree.Node.{Payload, LeafCell, InnerCell}
use arkeion.Btree.Node.Search.{inner_child}
use arkeion.Btree.Node.Search.Inner.{child_of, inner_child_indexed-InnerPage}
use arkeion.Btree.Node.Search.Lookup.{lookup}
use arkeion.Btree.Node.Search.Find.{is_some, leaf_find-LeafPage, leaf_contains-LeafPage}
use arkeion.Btree.Node.InnerPage.{InnerPage}
use arkeion.Btree.Node.LeafPage.{LeafPage}
use arkeion.Btree.Read.{
  Source, no_root, node_kind, inner_kind, leaf_kind, read_value, get_loop, get, contains_loop,
  contains,
}
use arkeion.Btree.Read.Tree.{InnerAt, IsTree}
use arkeion.Btree.Read.Children.{Children-child_of}

-- The type of a node's page.
pub node_kind-LeafPage :
    (body : List ℕ) (es : List LeafCell) (prefix : List ℕ)
    → LeafPage body es prefix
    → node_kind body ≡ leaf_kind
unfolding node_kind
node_kind-LeafPage body es prefix p = rw p.is_leaf refl

pub node_kind-InnerPage :
    (body : List ℕ) (cells : List InnerCell) (rightmost : ℕ)
    → InnerPage body cells rightmost
    → node_kind body ≡ inner_kind
unfolding node_kind
node_kind-InnerPage body cells rightmost p = rw p.is_inner refl

-- What a lookup makes of the payload that it finds.
abbrev pub value_of : Source → ℕ → Option Payload → Loop (Option (List ℕ))
value_of src chain none = done none
value_of src chain (some payload) = read_value src chain payload >>= λ v. done (some v)

-- Lookups in a map as a list of pairs.
abbrev pub find : List (List ℕ × List ℕ) → List ℕ → Option (List ℕ)
find [] key = none
find ((k, v) ∷ kvs) key = elim (lex k key) [ eq ↦ some v | _ ↦ find kvs key ]

abbrev pub has_key : List (List ℕ × List ℕ) → List ℕ → Bool
has_key [] key = false
has_key ((k, v) ∷ kvs) key = elim (lex k key) [ eq ↦ true | _ ↦ has_key kvs key ]

module _ (src : Source) where
  inner_child-InnerAt :
      (P : ℕ → List LeafCell → Type 0) (id : ℕ) (es : List LeafCell) (key : List ℕ)
      (t : InnerAt src P id es)
      → inner_child id t.body key ≡ ok (child_of t.cells t.rightmost key)
  unfolding inner_child
  inner_child-InnerAt P id es key t =
      rw (inner_child_indexed-InnerPage id t.body t.cells t.rightmost t.fits t.page key t.ordered)
        refl

  pub get_loop-IsTree :
      (h id fuel chain : ℕ) (es : List LeafCell) (key : List ℕ)
      → IsTree src h id es
      → h < fuel
      → get_loop src chain fuel id key ≡ value_of src chain (lookup es key)
  unfolding IsTree get_loop
  get_loop-IsTree h id zero chain es key t room = absurd (omega arith)
  get_loop-IsTree zero id (suc fuel) chain es key t room =
      let found = leaf_find-LeafPage id t.body es t.prefix t.fits t.ordered t.page key in
      rw (get_loop, t.read, ◌>>=◌, node_kind-LeafPage t.body es t.prefix t.page, found) refl
  get_loop-IsTree (suc h) id (suc fuel) chain es key t room =
      let (fs, child, same) =
        Children-child_of (IsTree src h) t.cells t.rightmost es key t.children in
      let found = inner_child-InnerAt (IsTree src h) id es key t in
      rw (get_loop, t.read, ◌>>=◌, node_kind-InnerPage t.body t.cells t.rightmost t.page, found)
        (get_loop-IsTree h (child_of t.cells t.rightmost key) fuel chain fs key child (omega arith)
          ∙ ap (value_of src chain) (sym same))

  contains_loop-IsTree :
      (h id fuel : ℕ) (es : List LeafCell) (key : List ℕ)
      → IsTree src h id es
      → h < fuel
      → contains_loop src fuel id key ≡ done (is_some (lookup es key))
  unfolding IsTree contains_loop
  contains_loop-IsTree h id zero es key t room = absurd (omega arith)
  contains_loop-IsTree zero id (suc fuel) es key t room =
      let found = leaf_contains-LeafPage id t.body es t.prefix t.fits t.ordered t.page key in
      rw (contains_loop, t.read, ◌>>=◌, node_kind-LeafPage t.body es t.prefix t.page, found) refl
  contains_loop-IsTree (suc h) id (suc fuel) es key t room =
      let (fs, child, same) =
        Children-child_of (IsTree src h) t.cells t.rightmost es key t.children in
      let found = inner_child-InnerAt (IsTree src h) id es key t in
      rw
        (contains_loop, t.read, ◌>>=◌, node_kind-InnerPage t.body t.cells t.rightmost t.page, found)
        (contains_loop-IsTree h (child_of t.cells t.rightmost key) fuel fs key child (omega arith)
          ∙ ap (λ (p : Option Payload). done (is_some p)) (sym same))

  -- The tree as a map: the entries with the values that their payloads are read to.
  abbrev pub HasValues : ℕ → List LeafCell → List (List ℕ × List ℕ) → Type 0
  HasValues chain [] [] = Unit
  HasValues chain (e ∷ es) ((k, v) ∷ kvs) =
      (e.key ≡ k) × (read_value src chain e.payload ≡ done v) × HasValues chain es kvs
  HasValues _ _ _ = ⊥

  -- A tree that is a map, at its root.
  pub record IsMap (root fuel : ℕ) (kvs : List (List ℕ × List ℕ)) : Type 0 where
    pub height : ℕ
    pub entries : List LeafCell
    pub tree : IsTree src height root entries
    pub values : HasValues fuel entries kvs
    pub rooted : root ≢ no_root
    pub deep : height < fuel

  value_of-HasValues :
      (chain : ℕ) (es : List LeafCell) (kvs : List (List ℕ × List ℕ)) (key : List ℕ)
      → HasValues chain es kvs
      → value_of src chain (lookup es key) ≡ done (find kvs key)
  value_of-HasValues chain [] [] key h = refl
  value_of-HasValues chain [] (kv ∷ kvs) key h = absurd h
  value_of-HasValues chain (e ∷ es) [] key h = absurd h
  value_of-HasValues chain (e ∷ es) ((k, v) ∷ kvs) key (same, r, h) = elim (lex-cases e.key key) [
    | inl (b, l) ↦ rw (lookup, find, sym same, l) (value_of-HasValues chain es kvs key h)
    | inr (inl (b, l)) ↦ rw (lookup, find, sym same, l, r) refl
    | inr (inr (b, l)) ↦ rw (lookup, find, sym same, l) (value_of-HasValues chain es kvs key h)
  ]

  -- On the pages of a tree, with values inline or in overflow chains that can be read, and with
  -- fuel for its height, get ends and gives what the list of its keys and values has at the key.
  pub get-IsMap :
      (root fuel : ℕ) (kvs : List (List ℕ × List ℕ)) (key : List ℕ)
      → IsMap root fuel kvs
      → get src fuel root key ≡ done (find kvs key)
  unfolding get
  get-IsMap root fuel kvs key m =
      let other : (root == no_root) ≡ false = ground (arith, m.rooted) in
      rw other (
        get_loop-IsTree m.height root fuel fuel m.entries key m.tree m.deep
        ∙ value_of-HasValues fuel m.entries kvs key m.values)

  is_some-HasValues :
      (chain : ℕ) (es : List LeafCell) (kvs : List (List ℕ × List ℕ)) (key : List ℕ)
      → HasValues chain es kvs
      → is_some (lookup es key) ≡ has_key kvs key
  is_some-HasValues chain [] [] key h = refl
  is_some-HasValues chain [] (kv ∷ kvs) key h = absurd h
  is_some-HasValues chain (e ∷ es) [] key h = absurd h
  is_some-HasValues chain (e ∷ es) ((k, v) ∷ kvs) key (same, r, h) = elim (lex-cases e.key key) [
    | inl (b, l) ↦ rw (lookup, has_key, sym same, l) (is_some-HasValues chain es kvs key h)
    | inr (inl (b, l)) ↦ rw (lookup, has_key, sym same, l) refl
    | inr (inr (b, l)) ↦ rw (lookup, has_key, sym same, l) (is_some-HasValues chain es kvs key h)
  ]

  -- On the pages of a tree, with fuel for its height, contains ends and says whether the key is in
  -- the list of its keys and values.
  pub contains-IsMap :
      (root fuel : ℕ) (kvs : List (List ℕ × List ℕ)) (key : List ℕ)
      → IsMap root fuel kvs
      → contains src fuel root key ≡ done (has_key kvs key)
  unfolding contains
  contains-IsMap root fuel kvs key m =
      let other : (root == no_root) ≡ false = ground (arith, m.rooted) in
      rw other (
        contains_loop-IsTree m.height root fuel m.entries key m.tree m.deep
        ∙ ap done (is_some-HasValues fuel m.entries kvs key m.values))
