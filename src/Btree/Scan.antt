-- ===== src/Btree/Scan.antt =====
-- btree/mod.rs: the cursor of a scan, `CursorState`. What holds a leaf is its bytes. A descent runs on
-- fuel for the height of the tree, and the loops over the leaves on fuel of their own. The state after
-- an error is left out, and so is the buffer that only saves allocations.
pub mod Yields
pub mod Children
pub mod Tree
pub mod Map
use arkeion.Common.{
  ℕ, zero, suc, ◌+◌, Bool, true, false, Option, none, some, List, [], ◌∷◌, length, get_elem?, ◌==◌,
  ltb, leb, if◌then◌else◌,
}
use arkeion.Error.{Result, ok}
use arkeion.Btree.Loop.{Loop, ◌>>=◌, done}
use arkeion.Btree.Node.{InnerCell, bad_page, ncells_of, leaf_is_compressed}
use arkeion.Btree.Node.Parse.{parse_inner, leaf_cell_at}
use arkeion.Btree.Node.Search.{leaf_lower_bound}
use arkeion.Btree.Read.{
  Source, no_root, NodeKind, inner_kind, leaf_kind, other_kind, node_kind, read_value,
}
use arkeion.Btree.Write.{child_index}

pub record LeafScan : Type 0 where
  pub page : ℕ
  pub held : List ℕ
  pub next : ℕ
  pub ncells : ℕ
  pub compressed : Bool

-- The inner nodes, each with the next child to visit, from the lowest up.
pub record CursorState : Type 0 where
  pub stack : List (ℕ × ℕ)
  pub leaf : Option LeafScan

abbrev pub Start : Type 0
Start = Option (List ℕ)

abbrev pub first_child : Start → List InnerCell → ℕ
first_child none cells = 0
first_child (some key) cells = child_index cells key

abbrev pub first_cell : Start → ℕ → List ℕ → Result ℕ
first_cell none id body = ok 0
first_cell (some key) id body = leaf_lower_bound id body key

abbrev pub child_at : List InnerCell → ℕ → ℕ → ℕ
child_at cells rightmost i = elim (get_elem? cells i) [ some c ↦ c.child | none ↦ rightmost ]

-- A node of a kind on the way down; the rest is the descent from its child.
unfoldable pub descend_node :
    CursorState
    → ℕ
    → Start
    → List ℕ
    → (CursorState → ℕ → Loop CursorState)
    → NodeKind
    → Loop CursorState
descend_node s id start body below inner_kind = some (parse_inner id body) >>= λ (cells, rightmost).
    let i = first_child start cells in
    below (record s { stack = (id, suc i) ∷ s.stack }) (child_at cells rightmost i)
descend_node s id start body below leaf_kind = some (first_cell start id body) >>= λ next.
    done (record s {
      leaf = some (record {
        page = id;
        held = body;
        next = next;
        ncells = ncells_of body;
        compressed = leaf_is_compressed body;
      });
    })
descend_node s id start body below other_kind = some (bad_page id "tipo de nodo inesperado")

unfoldable pub descend : Source → ℕ → CursorState → ℕ → Start → Loop CursorState
descend src zero s id start = none
descend src (suc depth) s id start = some (src id) >>= λ body.
    descend_node s id start body (λ s child. descend src depth s child start) (node_kind body)

unfoldable pub scan_state : Source → ℕ → ℕ → Start → Loop CursorState
scan_state src depth root start =
    let s : CursorState = record { stack = []; leaf = none } in
    if root == no_root then done s else descend src depth s root start

-- The step to the next leaf, from the stack of the nodes above.
unfoldable pub next_of : Source → ℕ → List (ℕ × ℕ) → Loop (Bool × CursorState)
next_of src depth [] = done (false, record { stack = []; leaf = none })
next_of src depth ((id, i) ∷ stack) = some (src id) >>= λ body.
    some (parse_inner id body) >>= λ (cells, rightmost).
    if leb i (length cells)
    then (descend src depth (record { stack = (id, suc i) ∷ stack; leaf = none })
          (child_at cells rightmost i) none
        >>= λ s. done (true, s))
    else done (true, record { stack = stack; leaf = none })

abbrev pub next_leaf : Source → ℕ → CursorState → Loop (Bool × CursorState)
next_leaf src depth s = next_of src depth s.stack

-- The leaf of a state that has a cell left.
unfoldable pub ready : Option LeafScan → Option LeafScan
ready none = none
ready (some l) = if ltb l.next l.ncells then some l else none

abbrev pub Entry : Type 0
Entry = List ℕ × List ℕ

unfoldable pub emit : Source → ℕ → CursorState → LeafScan → Loop (Option Entry × CursorState)
emit src chain s l = some (leaf_cell_at l.page l.held l.next) >>= λ (key, payload).
    read_value src chain payload >>= λ value.
    done (some (key, value), record s { leaf = some (record l { next = suc l.next }) })

unfoldable pub advance : Source → ℕ → ℕ → ℕ → CursorState → Loop (Option Entry × CursorState)
advance src depth chain zero s = none
advance src depth chain (suc rounds) s = elim (ready s.leaf) [
  | some l ↦ emit src chain s l
  | none ↦ next_leaf src depth s >>= λ (more, s). elim more [
    | true ↦ advance src depth chain rounds s
    | false ↦ done (none, s)
  ]
]

-- The entries that `Cursor::next` gives until it ends.
unfoldable pub collect : Source → ℕ → ℕ → ℕ → CursorState → Loop (List Entry)
collect src depth chain zero s = none
collect src depth chain (suc rounds) s = advance src depth chain (suc rounds) s >>= λ (entry, s).
    elim entry [
      | none ↦ done []
      | some e ↦ collect src depth chain rounds s >>= λ later. done (e ∷ later)
    ]

-- `scan` and `scan_from`, with all the entries of the cursor.
unfoldable pub scan : Source → ℕ → ℕ → ℕ → Start → Loop (List Entry)
scan src depth rounds root start =
    scan_state src depth root start >>= λ s. collect src depth depth rounds s
