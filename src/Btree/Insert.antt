-- ===== src/Btree/Insert.antt =====
-- btree/mod.rs: `insert`. The failure of an encoding that the code only asserts in debug builds leaves
-- the page as it is, as in a release build.
pub mod Steps
use arkeion.Common.{
  ℕ, zero, suc, ◌+◌, ◌-◌, Bool, true, false, not, ◌&&◌, ◌||◌, Option, none, some, List, [], ◌∷◌,
  ◌++◌, length, take, drop, ◌==◌, ltb, leb, get_elem?, if◌then◌else◌,
}
use arkeion.Error.{invalid_input}
use arkeion.Btree.Cursor.{AppendCursor}
use arkeion.Btree.Node.{
  Payload, inline, LeafCell, InnerCell, bad_page, leaf_cell_size, inner_cell_size, inline_cell_size,
  split_point, max_key_len, max_inline_cell,
}
use arkeion.Btree.Node.Parse.{parse_leaf, parse_inner, inner_rightmost, is_empty_key}
use arkeion.Btree.Node.Write.{encode_leaf, encode_inner}
use arkeion.Btree.Node.Append.{leaf_append, append_inline_at}
use arkeion.Btree.Node.Search.{key_lt, inner_child}
use arkeion.Btree.Read.{NodeKind, no_root, node_kind, inner_kind, leaf_kind, other_kind}
use arkeion.Btree.Write.{
  make_payload, free_payload, found, absent, search_key, child_index, insert_at, put_child,
}
use arkeion.Tx.Store.{
  TxStore, body, alloc, make_dirty, set_page, take_append_cursor, set_append_cursor,
}
use arkeion.Tx.Store.Run.{Run, ◌>>=◌, done, fail, lift, body_mut, try_write}

pub record Tail : Type 0 where
  pub leaf : ℕ
  pub end : ℕ
  pub last_key : List ℕ

pub record InsertOutcome : Type 0 where
  pub id : ℕ
  pub split : Option (List ℕ × ℕ)
  pub tail : Option Tail

abbrev outcome : ℕ → Option (List ℕ × ℕ) → Option Tail → InsertOutcome
outcome id split tail = record { id = id; split = split; tail = tail }

-- The cells of a leaf with the new payload, and whether the new cell is the last.
unfoldable pub place_cell :
    ℕ → TxStore → List LeafCell → List ℕ → Payload → Run (List LeafCell × Bool)
place_cell chain s cells key payload = elim (search_key cells key) [
  | found i ↦ elim (get_elem? cells i) [
    | none ↦ none
    | some old ↦ free_payload chain s old.payload >>= λ freed s.
        done (take i cells ++ record old { payload = payload } ∷ drop (suc i) cells, false) s
  ]
  | absent i ↦
      let cells = insert_at i (record { key = key; payload = payload }) cells in
      done (cells, suc i == length cells) s
]

-- The two halves of a split, the right one on a new page; what does not fit is not written.
unfoldable pub write_halves :
    TxStore → ℕ → ℕ → (List ℕ → Option (List ℕ)) → (List ℕ → Option (List ℕ)) → Run Bool
write_halves s id right write_right write_left = try_write s right write_right >>= λ fits s.
    if fits then try_write s id write_left else done false s

unfoldable pub split_leaf_at : TxStore → ℕ → List LeafCell → List LeafCell → Run InsertOutcome
split_leaf_at s id cells [] = none
split_leaf_at s id cells (c ∷ right_cells) =
    let (right, t) = alloc s in
    write_halves t id right (encode_leaf (c ∷ right_cells)) (encode_leaf cells) >>= λ fits s.
    done (outcome id (some (c.key, right)) none) s

unfoldable pub split_leaf : TxStore → ℕ → List LeafCell → Bool → Run InsertOutcome
split_leaf s id cells appended =
    let sp = if appended then length cells - 1 else split_point cells leaf_cell_size in
    split_leaf_at s id (take sp cells) (drop sp cells)

unfoldable pub rewrite_leaf : TxStore → ℕ → List LeafCell → Bool → Run InsertOutcome
rewrite_leaf s id cells appended = try_write s id (encode_leaf cells) >>= λ fits s.
    if fits then done (outcome id none none) s else split_leaf s id cells appended

unfoldable pub rewrite_cells : ℕ → TxStore → ℕ → List ℕ → Payload → Run InsertOutcome
rewrite_cells chain s id key payload = lift (body s id) s (λ page.
    lift (parse_leaf id page) s (λ cells. place_cell chain s cells key payload >>= λ placed s.
    let (cells, last) = placed in rewrite_leaf s id cells last))

-- The leaf behind its try of an append.
unfoldable pub finish_leaf :
    ℕ → TxStore → ℕ → List ℕ → Payload → Option (List ℕ × ℕ) → Run InsertOutcome
finish_leaf chain s id key payload (some (page, end)) =
    done (outcome id none (some (record { leaf = id; end = end; last_key = key })))
      (set_page s id page)
finish_leaf chain s id key payload none = rewrite_cells chain s id key payload

unfoldable pub insert_leaf : ℕ → TxStore → ℕ → List ℕ → Payload → Run InsertOutcome
insert_leaf chain s id key payload = some (make_dirty s id) >>= λ id s. body_mut s id (λ page.
    lift (leaf_append id page key payload) s
      (λ appended. finish_leaf chain s id key payload appended))

-- The cells on the left, and those from the one that goes up on.
unfoldable pub split_inner_at :
    TxStore → ℕ → List InnerCell → List InnerCell → ℕ → Option Tail → Run InsertOutcome
split_inner_at s id cells [] rightmost tail = none
split_inner_at s id cells (c ∷ right_cells) rightmost tail =
    let (right, t) = alloc s in
    write_halves t id right (encode_inner right_cells rightmost) (encode_inner cells c.child)
    >>= λ fits s. done (outcome id (some (c.key, right)) tail) s

unfoldable pub split_inner : TxStore → ℕ → List InnerCell → ℕ → Option Tail → Run InsertOutcome
split_inner s id cells rightmost tail =
    let sp = split_point cells inner_cell_size in
    split_inner_at s id (take sp cells) (drop sp cells) rightmost tail

-- The children of an inner node after an insert below one of them.
unfoldable pub place_child : List InnerCell → ℕ → List ℕ → InsertOutcome → List InnerCell × ℕ
place_child cells rightmost key out =
    let i = child_index cells key in
    let (cells, rightmost) = put_child cells rightmost i out.id in
    elim out.split [
      | none ↦ (cells, rightmost)
      | some half ↦
          let (sep, right) = half in
          put_child (insert_at i (record { key = sep; child = out.id }) cells) rightmost (suc i)
            right
    ]

abbrev pub is_none {ℓ} : {A : Type ℓ} → Option A → Bool
is_none none = true
is_none (some a) = false

unfoldable pub rewrite_inner :
    TxStore → ℕ → List ℕ → InsertOutcome → Option Tail → List InnerCell × ℕ → Run InsertOutcome
rewrite_inner s id key out tail (cells, rightmost) =
    let (cells, rightmost) = place_child cells rightmost key out in
    some (make_dirty s id) >>= λ id s. try_write s id (encode_inner cells rightmost) >>= λ fits s.
    if fits then done (outcome id none tail) s else split_inner s id cells rightmost tail

unfoldable pub insert_inner : TxStore → ℕ → List ℕ → ℕ → Bool → InsertOutcome → Run InsertOutcome
insert_inner s id key child is_rightmost out =
    let tail = if is_rightmost then out.tail else none in
    if is_none out.split && (out.id == child)
    then done (outcome id none tail) s
    else lift (body s id) s
        (λ page. lift (parse_inner id page) s (λ parsed. rewrite_inner s id key out tail parsed))

-- The node of a kind; the rest is the insert below it.
unfoldable pub insert_node :
    ℕ
    → TxStore
    → ℕ
    → List ℕ
    → Payload
    → List ℕ
    → (ℕ → Run InsertOutcome)
    → NodeKind
    → Run InsertOutcome
insert_node chain s id key payload page below leaf_kind = insert_leaf chain s id key payload
insert_node chain s id key payload page below inner_kind =
    lift (inner_child id page key) s (λ child.
      below child >>= λ out s. insert_inner s id key child (child == inner_rightmost page) out)
insert_node chain s id key payload page below other_kind =
    some (bad_page id "tipo de nodo inesperado", s)

unfoldable pub insert_rec : ℕ → ℕ → TxStore → ℕ → List ℕ → Payload → Run InsertOutcome
insert_rec chain zero s id key payload = none
insert_rec chain (suc fuel) s id key payload = lift (body s id) s (λ page.
    insert_node chain s id key payload page (λ child. insert_rec chain fuel s child key payload)
      (node_kind page))

-- The append at the cursor, where it applies: the page of the leaf and the end of its cells.
unfoldable pub append_at_cursor : TxStore → AppendCursor → ℕ → List ℕ → List ℕ → Option (List ℕ × ℕ)
append_at_cursor s cursor root key value =
    if (cursor.root == root)
      && key_lt cursor.last_key key
      && leb (inline_cell_size key (length value)) max_inline_cell
    then elim (s.dirty cursor.leaf) [
      | none ↦ none
      | some page ↦ append_inline_at page cursor.end key value
    ]
    else none

unfoldable pub insert_first : TxStore → List ℕ → Payload → Run ℕ
insert_first s key payload =
    let (id, t) = alloc s in
    try_write t id (encode_leaf (record { key = key; payload = payload } ∷ [])) >>= λ fits s.
    done id (set_append_cursor s none)

-- The root above the two halves of a split.
unfoldable pub grow_root : TxStore → ℕ → Option (List ℕ × ℕ) → Run ℕ
grow_root s root none = done root s
grow_root s root (some (sep, right)) =
    let (id, t) = alloc s in
    try_write t id (encode_inner (record { key = sep; child = root } ∷ []) right) >>= λ fits s.
    done id s

abbrev cursor_of : ℕ → Option Tail → Option AppendCursor
cursor_of root none = none
cursor_of root (some t) =
    some (record { root = root; leaf = t.leaf; end = t.end; last_key = t.last_key })

unfoldable pub insert_full : ℕ → TxStore → ℕ → List ℕ → List ℕ → Run ℕ
insert_full fuel s root key value = make_payload s key value >>= λ payload s.
    if root == no_root
    then insert_first s key payload
    else (insert_rec fuel fuel s root key payload >>= λ out s.
        grow_root s out.id out.split >>= λ id s.
        done id (set_append_cursor s (cursor_of id out.tail)))

-- The insert with the cursor that was taken.
unfoldable pub insert_with : ℕ → TxStore → ℕ → List ℕ → List ℕ → Option AppendCursor → Run ℕ
insert_with fuel s root key value none = insert_full fuel s root key value
insert_with fuel s root key value (some cursor) = elim (append_at_cursor s cursor root key value) [
  | none ↦ insert_full fuel s root key value
  | some written ↦
      let (page, end) = written in
      done root (
        set_append_cursor (set_page s cursor.leaf page)
          (some (record cursor { end = end; last_key = key })))
]

unfoldable pub insert : ℕ → TxStore → ℕ → List ℕ → List ℕ → Run ℕ
insert fuel s root key value =
    if is_empty_key key || ltb max_key_len (length key)
    then fail (invalid_input "clave vacía o de más de 1024 bytes") s
    else (let (cursor, t) = take_append_cursor s in insert_with fuel t root key value cursor)
