-- ===== src/Btree/Delete.antt =====
-- btree/mod.rs: `delete`.
pub mod Steps
use arkeion.Common.{
  ℕ, zero, suc, ◌+◌, ◌-◌, Bool, true, false, Option, none, some, List, [], ◌∷◌, ◌++◌, length, take,
  drop, ◌==◌, ltb, get_elem?, if◌then◌else◌,
}
use arkeion.Btree.Node.{LeafCell, InnerCell, bad_page}
use arkeion.Btree.Node.Parse.{parse_leaf, parse_inner}
use arkeion.Btree.Node.Write.{encode_leaf, encode_inner}
use arkeion.Btree.Node.Search.{inner_child}
use arkeion.Btree.Read.{NodeKind, no_root, node_kind, inner_kind, leaf_kind, other_kind}
use arkeion.Btree.Write.{
  Position, free_payload, found, absent, search_key, child_index, remove_at, put_child,
}
use arkeion.Tx.Store.{TxStore, body, make_dirty, free}
use arkeion.Tx.Store.Run.{Run, ◌>>=◌, done, lift, try_write}

-- The number of the node, none where it is gone, and whether the key was there.
abbrev pub Deleted : Type 0
Deleted = Option ℕ × Bool

-- The leaf with these cells left; without any it is freed.
unfoldable pub rest_of_leaf : TxStore → ℕ → List LeafCell → Run Deleted
rest_of_leaf s id [] = done (none, true) (free s id)
rest_of_leaf s id (c ∷ rest) = some (make_dirty s id) >>= λ id s.
    try_write s id (encode_leaf (c ∷ rest)) >>= λ fits s. done (some id, true) s

unfoldable pub delete_found : ℕ → TxStore → ℕ → List LeafCell → ℕ → Option LeafCell → Run Deleted
delete_found chain s id cells i none = none
delete_found chain s id cells i (some old) =
    free_payload chain s old.payload >>= λ freed s. rest_of_leaf s id (remove_at i cells)

unfoldable pub delete_at : ℕ → TxStore → ℕ → List LeafCell → Position → Run Deleted
delete_at chain s id cells (absent i) = done (some id, false) s
delete_at chain s id cells (found i) = delete_found chain s id cells i (get_elem? cells i)

-- The children without the one at a slot: the slot goes, or the last separator's child becomes the
-- rightmost; none where there is no other child.
unfoldable pub remove_child : List InnerCell → ℕ → ℕ → Option (List InnerCell × ℕ)
remove_child cells rightmost i =
    if ltb i (length cells)
    then some (remove_at i cells, rightmost)
    else elim (drop (length cells - 1) cells) [
      | [] ↦ none
      | last ∷ _ ↦ some (take (length cells - 1) cells, last.child)
    ]

unfoldable pub rewrite_inner : TxStore → ℕ → List InnerCell × ℕ → Bool → Run Deleted
rewrite_inner s id (cells, rightmost) existed = some (make_dirty s id) >>= λ id s.
    try_write s id (encode_inner cells rightmost) >>= λ fits s. done (some id, existed) s

-- The node behind the end of a child: it is freed where it has no other, or one alone.
unfoldable pub rest_of_inner : TxStore → ℕ → Option (List InnerCell × ℕ) → Bool → Run Deleted
rest_of_inner s id none existed = done (none, existed) (free s id)
rest_of_inner s id (some ([], rightmost)) existed = done (some rightmost, existed) (free s id)
rest_of_inner s id (some (c ∷ rest, rightmost)) existed =
    rewrite_inner s id (c ∷ rest, rightmost) existed

unfoldable pub replace_child :
    TxStore → ℕ → List ℕ → Option ℕ → Bool → List InnerCell × ℕ → Run Deleted
replace_child s id key (some nc) existed (cells, rightmost) =
    rewrite_inner s id (put_child cells rightmost (child_index cells key) nc) existed
replace_child s id key none existed (cells, rightmost) =
    rest_of_inner s id (remove_child cells rightmost (child_index cells key)) existed

abbrev pub unchanged : ℕ → Option ℕ → Bool
unchanged child none = false
unchanged child (some id) = id == child

unfoldable pub delete_inner : TxStore → ℕ → List ℕ → ℕ → Option ℕ → Bool → Run Deleted
delete_inner s id key child new_child existed =
    if unchanged child new_child
    then done (some id, existed) s
    else lift (body s id) s (λ page.
      lift (parse_inner id page) s (λ parsed. replace_child s id key new_child existed parsed))

-- The node of a kind; the rest is the delete below it.
unfoldable pub delete_node :
    ℕ → TxStore → ℕ → List ℕ → List ℕ → (ℕ → Run Deleted) → NodeKind → Run Deleted
delete_node chain s id key page below leaf_kind =
    lift (parse_leaf id page) s (λ cells. delete_at chain s id cells (search_key cells key))
delete_node chain s id key page below inner_kind = lift (inner_child id page key) s (λ child.
    below child >>= λ deleted s.
    let (new_child, existed) = deleted in delete_inner s id key child new_child existed)
delete_node chain s id key page below other_kind = some (bad_page id "tipo de nodo inesperado", s)

unfoldable pub delete_rec : ℕ → ℕ → TxStore → ℕ → List ℕ → Run Deleted
delete_rec chain zero s id key = none
delete_rec chain (suc fuel) s id key = lift (body s id) s (λ page.
    delete_node chain s id key page (λ child. delete_rec chain fuel s child key) (node_kind page))

abbrev unwrap_or_no_root : Option ℕ → ℕ
unwrap_or_no_root none = no_root
unwrap_or_no_root (some id) = id

unfoldable pub delete : ℕ → TxStore → ℕ → List ℕ → Run (ℕ × Bool)
delete fuel s root key =
    if root == no_root
    then done (no_root, false) s
    else (delete_rec fuel fuel s root key >>= λ deleted s.
        let (new_root, existed) = deleted in done (unwrap_or_no_root new_root, existed) s)
