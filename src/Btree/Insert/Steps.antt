-- ===== src/Btree/Insert/Steps.antt =====
-- An insert goes through the steps of a store, whether it succeeds or fails.
use arkeion.Common.{
  ℕ, zero, suc, ◌≡◌, refl, Bool, true, false, ◌&&◌, ◌||◌, Option, none, some, List, [], ◌∷◌, length,
  get_elem?, ltb, ◌==◌, Option-cases, inl, inr, if◌then◌else◌,
}
use arkeion.Btree.Cursor.{AppendCursor}
use arkeion.Btree.Node.{Payload, LeafCell, InnerCell, max_key_len}
use arkeion.Btree.Node.Parse.{parse_leaf, parse_inner, inner_rightmost, is_empty_key}
use arkeion.Btree.Node.Write.{encode_leaf, encode_inner}
use arkeion.Btree.Node.Append.{leaf_append}
use arkeion.Btree.Node.Search.{inner_child}
use arkeion.Btree.Read.{NodeKind, inner_kind, leaf_kind, other_kind, node_kind, no_root}
use arkeion.Btree.Write.{Position, found, absent, search_key, make_payload, free_payload}
use arkeion.Btree.Write.Steps.{make_payload-Reach, free_payload-Reach}
use arkeion.Btree.Insert.{
  Tail, InsertOutcome, place_cell, write_halves, split_leaf, split_leaf_at, finish_leaf,
  rewrite_cells, split_inner_at, rewrite_inner, insert_node, insert_with, rewrite_leaf, insert_leaf,
  split_inner, place_child, is_none, insert_inner, insert_rec, append_at_cursor, insert_first,
  grow_root, insert_full, insert,
}
use arkeion.Tx.Store.{
  TxStore, body, alloc, make_dirty, set_page, take_append_cursor, set_append_cursor,
}
use arkeion.Tx.Store.Run.{Run, try_write}
use arkeion.Tx.Store.Steps.{
  Steps, stays, Reach, after_alloc, if-Reach, bind-Reach, lift-Reach, body_mut-Reach,
  try_write-Reach, make_dirty-Reach, alloc-Steps, write-Steps, cursor-Steps,
}

place_cell-Reach :
    (chain : ℕ) (s t : TxStore) (cells : List LeafCell) (key : List ℕ) (payload : Payload)
    → Steps s t
    → Reach s (place_cell chain t cells key payload)
unfolding place_cell
place_cell-Reach chain s t cells key payload p = go (search_key cells key) refl
  where
    go :
        (at : Position) → search_key cells key ≡ at → Reach s (place_cell chain t cells key payload)
    go (found i) e = elim (Option-cases (get_elem? cells i)) [
      | inl none_there ↦ rw (Reach, place_cell, e, none_there) tt
      | inr (old, g) ↦
          rw (Reach, place_cell, e, g)
            (bind-Reach s (free_payload chain t old.payload) _
              (free_payload-Reach chain s t old.payload p) λ freed u q. q)
    ]
    go (absent i) e = rw (Reach, place_cell, e) p

write_halves-Reach :
    (s t : TxStore) (id right : ℕ) (write_right write_left : List ℕ → Option (List ℕ))
    → Steps s t
    → Reach s (write_halves t id right write_right write_left)
unfolding write_halves
write_halves-Reach s t id right write_right write_left p =
    bind-Reach s (try_write t right write_right) _ (try_write-Reach s t right write_right p)
      λ fits u q. if-Reach fits s _ _ (try_write-Reach s u id write_left q) q

split_leaf_at-Reach :
    (s t : TxStore) (id : ℕ) (cells right_cells : List LeafCell)
    → Steps s t
    → Reach s (split_leaf_at t id cells right_cells)
unfolding split_leaf_at
split_leaf_at-Reach s t id cells [] p = tt
split_leaf_at-Reach s t id cells (c ∷ right_cells) p =
    bind-Reach s
      (write_halves (after_alloc t) id (alloc t).0 (encode_leaf (c ∷ right_cells))
        (encode_leaf cells))
      _ (write_halves-Reach s (after_alloc t) id (alloc t).0 _ _ (alloc-Steps s t p)) λ fits u q. q

rewrite_leaf-Reach :
    (s t : TxStore) (id : ℕ) (cells : List LeafCell) (appended : Bool)
    → Steps s t
    → Reach s (rewrite_leaf t id cells appended)
unfolding rewrite_leaf split_leaf
rewrite_leaf-Reach s t id cells appended p =
    bind-Reach s (try_write t id (encode_leaf cells)) _
      (try_write-Reach s t id (encode_leaf cells) p)
      λ fits u q. if-Reach fits s _ _ q (split_leaf_at-Reach s u id _ _ q)

finish_leaf-Reach :
    (chain : ℕ) (s t : TxStore) (id : ℕ) (key : List ℕ) (payload : Payload) (old : List ℕ)
    (appended : Option (List ℕ × ℕ))
    → t.dirty id ≡ some old
    → Steps s t
    → Reach s (finish_leaf chain t id key payload appended)
unfolding finish_leaf rewrite_cells
finish_leaf-Reach chain s t id key payload old (some (page, end)) e p =
    write-Steps s t id page old e p
finish_leaf-Reach chain s t id key payload old none e p = lift-Reach s t (body t id) _ p λ page.
    lift-Reach s t (parse_leaf id page) _ p λ cells.
      bind-Reach s (place_cell chain t cells key payload) _
        (place_cell-Reach chain s t cells key payload p)
        λ placed v r. rewrite_leaf-Reach s v id placed.0 placed.1 r

insert_leaf-Reach :
    (chain : ℕ) (s t : TxStore) (id : ℕ) (key : List ℕ) (payload : Payload)
    → Steps s t
    → Reach s (insert_leaf chain t id key payload)
unfolding insert_leaf
insert_leaf-Reach chain s t id key payload p =
    bind-Reach s (some (make_dirty t id)) _ (make_dirty-Reach s t id p) λ id u q.
      body_mut-Reach s u id _ λ page e.
        lift-Reach s u (leaf_append id page key payload) _ q
          λ appended. finish_leaf-Reach chain s u id key payload page appended e q

split_inner_at-Reach :
    (s t : TxStore) (id : ℕ) (cells right_cells : List InnerCell) (rightmost : ℕ)
    (tail : Option Tail)
    → Steps s t
    → Reach s (split_inner_at t id cells right_cells rightmost tail)
unfolding split_inner_at
split_inner_at-Reach s t id cells [] rightmost tail p = tt
split_inner_at-Reach s t id cells (c ∷ right_cells) rightmost tail p =
    bind-Reach s
      (write_halves (after_alloc t) id (alloc t).0 (encode_inner right_cells rightmost)
        (encode_inner cells c.child))
      _ (write_halves-Reach s (after_alloc t) id (alloc t).0 _ _ (alloc-Steps s t p)) λ fits u q. q

rewrite_inner-Reach :
    (s t : TxStore) (id : ℕ) (key : List ℕ) (out : InsertOutcome) (tail : Option Tail)
    (parsed : List InnerCell × ℕ)
    → Steps s t
    → Reach s (rewrite_inner t id key out tail parsed)
unfolding rewrite_inner split_inner
rewrite_inner-Reach s t id key out tail (cells, rightmost) p =
    let (placed, last) = place_child cells rightmost key out in
    bind-Reach s (some (make_dirty t id)) _ (make_dirty-Reach s t id p) λ id u q.
      bind-Reach s (try_write u id (encode_inner placed last)) _
        (try_write-Reach s u id (encode_inner placed last) q)
        λ fits v r. if-Reach fits s _ _ r (split_inner_at-Reach s v id _ _ _ tail r)

insert_inner-Reach :
    (s t : TxStore) (id : ℕ) (key : List ℕ) (child : ℕ) (is_rightmost : Bool) (out : InsertOutcome)
    → Steps s t
    → Reach s (insert_inner t id key child is_rightmost out)
unfolding insert_inner
insert_inner-Reach s t id key child is_rightmost out p =
    if-Reach (is_none out.split && (out.id == child)) s _ _ p (
      lift-Reach s t (body t id) _ p λ page.
        lift-Reach s t (parse_inner id page) _ p
          λ parsed. rewrite_inner-Reach s t id key out _ parsed p)

insert_node-Reach :
    (chain : ℕ) (s t : TxStore) (id : ℕ) (key : List ℕ) (payload : Payload) (page : List ℕ)
    (below : ℕ → Run InsertOutcome) (kind : NodeKind)
    → Steps s t
    → ((child : ℕ) → Reach s (below child))
    → Reach s (insert_node chain t id key payload page below kind)
unfolding insert_node
insert_node-Reach chain s t id key payload page below leaf_kind p h =
    insert_leaf-Reach chain s t id key payload p
insert_node-Reach chain s t id key payload page below inner_kind p h =
    lift-Reach s t (inner_child id page key) _ p λ child.
      bind-Reach s (below child) _ (h child)
        λ out u q. insert_inner-Reach s u id key child (child == inner_rightmost page) out q
insert_node-Reach chain s t id key payload page below other_kind p h = p

insert_rec-Reach :
    (chain fuel : ℕ) (s t : TxStore) (id : ℕ) (key : List ℕ) (payload : Payload)
    → Steps s t
    → Reach s (insert_rec chain fuel t id key payload)
unfolding insert_rec
insert_rec-Reach chain zero s t id key payload p = tt
insert_rec-Reach chain (suc fuel) s t id key payload p = lift-Reach s t (body t id) _ p λ page.
    insert_node-Reach chain s t id key payload page _ (node_kind page) p
      λ child. insert_rec-Reach chain fuel s t child key payload p

grow_root-Reach :
    (s t : TxStore) (root : ℕ) (split : Option (List ℕ × ℕ))
    → Steps s t
    → Reach s (grow_root t root split)
unfolding grow_root
grow_root-Reach s t root none p = p
grow_root-Reach s t root (some (sep, right)) p =
    bind-Reach s
      (try_write (after_alloc t) (alloc t).0
        (encode_inner (record { key = sep; child = root } ∷ []) right))
      _ (try_write-Reach s (after_alloc t) (alloc t).0 _ (alloc-Steps s t p)) λ fits u q. q

insert_first-Reach :
    (s t : TxStore) (key : List ℕ) (payload : Payload)
    → Steps s t
    → Reach s (insert_first t key payload)
unfolding insert_first
insert_first-Reach s t key payload p =
    bind-Reach s
      (try_write (after_alloc t) (alloc t).0
        (encode_leaf (record { key = key; payload = payload } ∷ [])))
      _ (try_write-Reach s (after_alloc t) (alloc t).0 _ (alloc-Steps s t p))
      λ fits u q. cursor-Steps s u none q

insert_full-Reach :
    (fuel : ℕ) (s t : TxStore) (root : ℕ) (key value : List ℕ)
    → Steps s t
    → Reach s (insert_full fuel t root key value)
unfolding insert_full
insert_full-Reach fuel s t root key value p =
    bind-Reach s (make_payload t key value) _ (make_payload-Reach s t key value p) λ payload u q.
      if-Reach (root == no_root) s _ _ (insert_first-Reach s u key payload q) (
        bind-Reach s (insert_rec fuel fuel u root key payload) _
          (insert_rec-Reach fuel fuel s u root key payload q)
          λ out v r.
            bind-Reach s (grow_root v out.id out.split) _ (grow_root-Reach s v out.id out.split r)
              λ id w o. cursor-Steps s w _ o)

never_some : (b : Bool) (w : List ℕ × ℕ) → (if b then none else none) ≡ some w → ⊥
never_some true w e = absurd cc
never_some false w e = absurd cc

append_at_cursor-dirty :
    (s : TxStore) (cursor : AppendCursor) (root : ℕ) (key value : List ℕ) (written : List ℕ × ℕ)
    → append_at_cursor s cursor root key value ≡ some written
    → (page : List ℕ) × (s.dirty cursor.leaf ≡ some page)
unfolding append_at_cursor
append_at_cursor-dirty s cursor root key value written e =
    elim (Option-cases (s.dirty cursor.leaf)) [
      | inr found_page ↦ found_page
      | inl clean ↦ absurd (never_some _ written (rw (append_at_cursor, clean) at e))
    ]

insert_with-Reach :
    (fuel : ℕ) (s t : TxStore) (root : ℕ) (key value : List ℕ) (cursor : Option AppendCursor)
    → Steps s t
    → Reach s (insert_with fuel t root key value cursor)
unfolding insert_with
insert_with-Reach fuel s t root key value none p = insert_full-Reach fuel s t root key value p
insert_with-Reach fuel s t root key value (some cursor) p =
    elim (Option-cases (append_at_cursor t cursor root key value)) [
      | inl full ↦ rw (Reach, insert_with, full) (insert_full-Reach fuel s t root key value p)
      | inr ((new_page, end), e) ↦
          let (page, dirty) = append_at_cursor-dirty t cursor root key value (new_page, end) e in
          rw (Reach, insert_with, e)
            (cursor-Steps s (set_page t cursor.leaf new_page) _
              (write-Steps s t cursor.leaf new_page page dirty p))
    ]

pub insert-Reach :
    (fuel : ℕ) (s : TxStore) (root : ℕ) (key value : List ℕ)
    → Reach s (insert fuel s root key value)
unfolding insert take_append_cursor set_append_cursor
insert-Reach fuel s root key value =
    if-Reach (is_empty_key key || ltb max_key_len (length key)) s _ _ stays (
      insert_with-Reach fuel s (set_append_cursor s none) root key value s.append_cursor
        (cursor-Steps s s none stays))
