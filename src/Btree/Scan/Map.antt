-- ===== src/Btree/Scan/Map.antt =====
-- A scan of a tree that is a map, from its first key or from a key on.
use arkeion.Common.{
  ℕ, zero, suc, ◌≤◌, ◌≡◌, refl, sym, ◌∙◌, ap, arith, true, false, none, some, List, [], ◌∷◌, ◌++◌,
  append-nil, length, drop, ◌==◌, Bool-cases, inl, inr,
}
use mathlib.Core.Path.{subst}
use arkeion.Error.{ok}
use arkeion.Btree.Loop.{◌>>=◌, done}
use arkeion.Btree.Node.{LeafCell}
use arkeion.Btree.Node.Search.{key_lt}
use arkeion.Btree.Node.Search.Find.{keys_below, leaf_lower_bound-LeafPage}
use arkeion.Btree.Read.{Source, no_root, read_value}
use arkeion.Btree.Read.Tree.{LeafAt, IsTree}
use arkeion.Btree.Read.Get.{IsMap, HasValues, node_kind-LeafPage, node_kind-InnerPage}
use arkeion.Btree.Scan.{
  CursorState, Entry, Start, first_child, first_cell, child_at, descend_node, descend, scan_state,
  scan,
}
use arkeion.Btree.Scan.Yields.{Yields, Yields-end, collect-Yields}
use arkeion.Btree.Scan.Children.{since, skip, Children-Visit}
use arkeion.Btree.Scan.Tree.{
  value_or_nil, entries, Readable, scan_of, Descent, drop-keys_below, leaf-Yields, frame-Ends,
  entries-join, Readable-append, node_parsed,
}

module _ (src : Source) (depth chain : ℕ) where
  -- The entries of a leaf from the start on.
  record FirstCell (id : ℕ) (es : List LeafCell) (body : List ℕ) (start : Start) : Type 0 where
    next : ℕ
    finds : first_cell start id body ≡ ok next
    rest : drop next es ≡ since start es

  LeafAt-FirstCell :
      (id : ℕ) (es : List LeafCell) (t : LeafAt src id es) (start : Start)
      → FirstCell id es t.body start
  LeafAt-FirstCell id es t none = record { next = 0; finds = refl; rest = refl }
  LeafAt-FirstCell id es t (some key) = record {
    next = keys_below es key;
    finds = leaf_lower_bound-LeafPage id t.body es t.prefix t.fits t.ordered t.page key;
    rest = drop-keys_below es key;
  }

  Descent-IsTree : (h : ℕ) → h ≤ depth → Descent src depth chain h
  unfolding IsTree descend descend_node
  Descent-IsTree h le id zero es start stack ys t deep r k = absurd (omega (arith, deep))
  Descent-IsTree zero le id (suc left) es start stack ys t deep r k =
      let kind = node_kind-LeafPage t.body es t.prefix t.page in
      let first = LeafAt-FirstCell id es t start in
      record {
        state = record {
          stack = stack;
          leaf = some (scan_of src depth chain id t.body first.next);
        };
        comes = rw (descend, t.read, ◌>>=◌, kind, descend_node, first.finds) refl;
        yields =
            leaf-Yields src depth chain id es t stack ys k (since start es) first.next first.rest r;
      }
  Descent-IsTree (suc h) le id (suc left) es start stack ys t deep r k =
      let kind = node_kind-InnerPage t.body t.cells t.rightmost t.page in
      let parsed = node_parsed src depth chain h id es t in
      let i = first_child start t.cells in
      let v = Children-Visit (IsTree src h) t.cells t.rightmost start es t.children in
      let (near, far) =
        Readable-append src depth chain (since start v.here) v.behind
          (subst (Readable src depth chain) v.joined r) in
      let d =
        Descent-IsTree h (omega (arith, le)) (child_at t.cells t.rightmost i) left v.here start
          ((id, suc i) ∷ stack) (entries src depth chain v.behind ++ ys) v.child
          (omega (arith, deep)) near
          (frame-Ends src depth chain h id es t (length t.cells) (suc i) stack ys v.behind
            (Descent-IsTree h (omega (arith, le))) (omega (arith, le)) k (omega arith) v.later
            far) in
      record {
        state = d.state;
        comes = rw (descend, t.read, ◌>>=◌, kind, descend_node, parsed) d.comes;
        yields =
            subst (Yields src depth chain d.state)
              (entries-join src depth chain (since start es) (since start v.here) v.behind ys
                v.joined)
              d.yields;
      }

-- The entries of a map from the first key that is not below the start on.
abbrev pub from : Start → List Entry → List Entry
from none kvs = kvs
from (some key) [] = []
from (some key) ((k, v) ∷ kvs) = elim (key_lt k key) [
  | true ↦ from (some key) kvs
  | false ↦ (k, v) ∷ kvs
]

module _ (src : Source) where
  HasValues-entries :
      (fuel : ℕ) (es : List LeafCell) (kvs : List Entry)
      → HasValues src fuel es kvs
      → Readable src fuel fuel es × (entries src fuel fuel es ≡ kvs)
  HasValues-entries fuel [] [] h = (tt, refl)
  HasValues-entries fuel [] (kv ∷ kvs) h = absurd h
  HasValues-entries fuel (e ∷ es) [] h = absurd h
  HasValues-entries fuel (e ∷ es) ((k, v) ∷ kvs) (same, r, h) =
      let (readable, equal) = HasValues-entries fuel es kvs h in
      let value : value_or_nil (read_value src fuel e.payload) ≡ v = ap value_or_nil r in
      ((r ∙ ap done (sym value), readable), cc)

  since-HasValues :
      (fuel : ℕ) (start : Start) (es : List LeafCell) (kvs : List Entry)
      → HasValues src fuel es kvs
      → HasValues src fuel (since start es) (from start kvs)
  since-HasValues fuel none es kvs h = h
  since-HasValues fuel (some key) [] [] h = h
  since-HasValues fuel (some key) [] (kv ∷ kvs) h = absurd h
  since-HasValues fuel (some key) (e ∷ es) [] h = absurd h
  since-HasValues fuel (some key) (e ∷ es) ((k, v) ∷ kvs) (same, r, h) =
      elim (Bool-cases (key_lt k key)) [
        | inl t ↦ rw (since, skip, from, same, t) (since-HasValues fuel (some key) es kvs h)
        | inr f ↦ rw (since, skip, from, same, f) (same, r, h)
      ]

  -- The state that a scan begins with.
  pub scan_state-IsMap :
      (root fuel : ℕ) (start : Start) (kvs : List Entry)
      → IsMap src root fuel kvs
      → (s : CursorState) × (scan_state src fuel root start ≡ done s)
        × Yields src fuel fuel s (from start kvs)
  unfolding scan_state
  scan_state-IsMap root fuel start kvs m =
      let (r, equal) =
        HasValues-entries fuel (since start m.entries) (from start kvs)
          (since-HasValues fuel start m.entries kvs m.values) in
      let d =
        Descent-IsTree src fuel fuel m.height (omega (arith, m.deep)) root fuel m.entries start []
          [] m.tree m.deep r
          (λ leaf no_cell.
            Yields-end src fuel fuel (record { stack = []; leaf = leaf }) no_cell refl) in
      let exact : entries src fuel fuel (since start m.entries) ++ [] ≡ from start kvs =
        append-nil _ ∙ equal in
      let other : (root == no_root) ≡ false = ground (arith, m.rooted) in
      (d.state, rw (scan_state, other) d.comes, subst (Yields src fuel fuel d.state) exact d.yields)

  -- On the pages of a tree, with values that can be read and with fuel for its height, there is a
  -- count of rounds from which on a scan ends and gives the keys and values of the tree in their
  -- order, from the first key that is not below its start on, or all without a start.
  pub scan-IsMap :
      (root fuel : ℕ) (start : Start) (kvs : List Entry)
      → IsMap src root fuel kvs
      → (least : ℕ) × ((rounds : ℕ)
          → least ≤ rounds
          → scan src fuel rounds root start ≡ done (from start kvs))
  unfolding scan
  scan-IsMap root fuel start kvs m =
      let (s, begins, yields) = scan_state-IsMap root fuel start kvs m in
      let (least, c) = collect-Yields src fuel fuel (from start kvs) s yields in
      (least, λ rounds enough. rw (scan, begins, ◌>>=◌) (c rounds enough))
