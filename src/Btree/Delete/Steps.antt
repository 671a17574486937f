-- ===== src/Btree/Delete/Steps.antt =====
-- A delete goes through the steps of a store, whether it succeeds or fails.
use arkeion.Common.{ℕ, zero, suc, Bool, Option, none, some, List, [], ◌∷◌, get_elem?, ◌==◌}
use arkeion.Btree.Node.{LeafCell, InnerCell}
use arkeion.Btree.Node.Parse.{parse_leaf, parse_inner}
use arkeion.Btree.Node.Write.{encode_leaf, encode_inner}
use arkeion.Btree.Node.Search.{inner_child}
use arkeion.Btree.Read.{NodeKind, inner_kind, leaf_kind, other_kind, node_kind, no_root}
use arkeion.Btree.Write.{
  child_index, put_child, Position, found, absent, search_key, free_payload, remove_at,
}
use arkeion.Btree.Write.Steps.{free_payload-Reach}
use arkeion.Btree.Delete.{
  Deleted, delete_found, delete_at, rest_of_leaf, remove_child, rewrite_inner, rest_of_inner,
  replace_child, unchanged, delete_inner, delete_node, delete_rec, delete,
}
use arkeion.Tx.Store.{TxStore, body, make_dirty}
use arkeion.Tx.Store.Run.{Run, try_write}
use arkeion.Tx.Store.Steps.{
  Steps, stays, Reach, if-Reach, bind-Reach, lift-Reach, try_write-Reach, make_dirty-Reach,
  free-Steps,
}

rest_of_leaf-Reach :
    (s t : TxStore) (id : ℕ) (cells : List LeafCell) → Steps s t → Reach s (rest_of_leaf t id cells)
unfolding rest_of_leaf
rest_of_leaf-Reach s t id [] p = free-Steps s t id p
rest_of_leaf-Reach s t id (c ∷ rest) p =
    bind-Reach s (some (make_dirty t id)) _ (make_dirty-Reach s t id p) λ id u q.
      bind-Reach s (try_write u id (encode_leaf (c ∷ rest))) _
        (try_write-Reach s u id (encode_leaf (c ∷ rest)) q) λ fits v r. r

delete_found-Reach :
    (chain : ℕ) (s t : TxStore) (id : ℕ) (cells : List LeafCell) (i : ℕ) (old : Option LeafCell)
    → Steps s t
    → Reach s (delete_found chain t id cells i old)
unfolding delete_found
delete_found-Reach chain s t id cells i none p = tt
delete_found-Reach chain s t id cells i (some old) p =
    bind-Reach s (free_payload chain t old.payload) _ (free_payload-Reach chain s t old.payload p)
      λ freed u q. rest_of_leaf-Reach s u id (remove_at i cells) q

delete_at-Reach :
    (chain : ℕ) (s t : TxStore) (id : ℕ) (cells : List LeafCell) (at : Position)
    → Steps s t
    → Reach s (delete_at chain t id cells at)
unfolding delete_at
delete_at-Reach chain s t id cells (found i) p =
    delete_found-Reach chain s t id cells i (get_elem? cells i) p
delete_at-Reach chain s t id cells (absent i) p = p

rewrite_inner-Reach :
    (s t : TxStore) (id : ℕ) (children : List InnerCell × ℕ) (existed : Bool)
    → Steps s t
    → Reach s (rewrite_inner t id children existed)
unfolding rewrite_inner
rewrite_inner-Reach s t id (cells, rightmost) existed p =
    bind-Reach s (some (make_dirty t id)) _ (make_dirty-Reach s t id p) λ id u q.
      bind-Reach s (try_write u id (encode_inner cells rightmost)) _
        (try_write-Reach s u id (encode_inner cells rightmost) q) λ fits v r. r

rest_of_inner-Reach :
    (s t : TxStore) (id : ℕ) (children : Option (List InnerCell × ℕ)) (existed : Bool)
    → Steps s t
    → Reach s (rest_of_inner t id children existed)
unfolding rest_of_inner
rest_of_inner-Reach s t id none existed p = free-Steps s t id p
rest_of_inner-Reach s t id (some ([], rightmost)) existed p = free-Steps s t id p
rest_of_inner-Reach s t id (some (c ∷ rest, rightmost)) existed p =
    rewrite_inner-Reach s t id (c ∷ rest, rightmost) existed p

replace_child-Reach :
    (s t : TxStore) (id : ℕ) (key : List ℕ) (new_child : Option ℕ) (existed : Bool)
    (parsed : List InnerCell × ℕ)
    → Steps s t
    → Reach s (replace_child t id key new_child existed parsed)
unfolding replace_child
replace_child-Reach s t id key (some nc) existed (cells, rightmost) p =
    rewrite_inner-Reach s t id (put_child cells rightmost (child_index cells key) nc) existed p
replace_child-Reach s t id key none existed (cells, rightmost) p =
    rest_of_inner-Reach s t id (remove_child cells rightmost (child_index cells key)) existed p

delete_inner-Reach :
    (s t : TxStore) (id : ℕ) (key : List ℕ) (child : ℕ) (new_child : Option ℕ) (existed : Bool)
    → Steps s t
    → Reach s (delete_inner t id key child new_child existed)
unfolding delete_inner
delete_inner-Reach s t id key child new_child existed p =
    if-Reach (unchanged child new_child) s _ _ p (
      lift-Reach s t (body t id) _ p λ page.
        lift-Reach s t (parse_inner id page) _ p
          λ parsed. replace_child-Reach s t id key new_child existed parsed p)

delete_node-Reach :
    (chain : ℕ) (s t : TxStore) (id : ℕ) (key page : List ℕ) (below : ℕ → Run Deleted)
    (kind : NodeKind)
    → Steps s t
    → ((child : ℕ) → Reach s (below child))
    → Reach s (delete_node chain t id key page below kind)
unfolding delete_node
delete_node-Reach chain s t id key page below leaf_kind p h =
    lift-Reach s t (parse_leaf id page) _ p
      λ cells. delete_at-Reach chain s t id cells (search_key cells key) p
delete_node-Reach chain s t id key page below inner_kind p h =
    lift-Reach s t (inner_child id page key) _ p λ child.
      bind-Reach s (below child) _ (h child)
        λ deleted u q. delete_inner-Reach s u id key child deleted.0 deleted.1 q
delete_node-Reach chain s t id key page below other_kind p h = p

delete_rec-Reach :
    (chain fuel : ℕ) (s t : TxStore) (id : ℕ) (key : List ℕ)
    → Steps s t
    → Reach s (delete_rec chain fuel t id key)
unfolding delete_rec
delete_rec-Reach chain zero s t id key p = tt
delete_rec-Reach chain (suc fuel) s t id key p = lift-Reach s t (body t id) _ p λ page.
    delete_node-Reach chain s t id key page _ (node_kind page) p
      λ child. delete_rec-Reach chain fuel s t child key p

pub delete-Reach :
    (fuel : ℕ) (s : TxStore) (root : ℕ) (key : List ℕ) → Reach s (delete fuel s root key)
unfolding delete
delete-Reach fuel s root key = if-Reach (root == no_root) s _ _ stays (
    bind-Reach s (delete_rec fuel fuel s root key) _ (delete_rec-Reach fuel fuel s s root key stays)
      λ deleted u q. q)
