-- ===== src/Tx/Store.antt =====
-- tx.rs: `TxStore`, the dirty pages of a write transaction over the durable pages of the pager. The
-- pager is the field `read_page`, the map of the dirty pages a function, and the vector of the freed
-- numbers a list with its last element at the head.
pub mod Run
pub mod Steps
pub mod Numbers
pub mod Durable
use arkeion.Common.{
  ℕ, ◌+◌, Bool, true, false, Option, none, some, List, [], ◌∷◌, replicate, ◌==◌, if◌then◌else◌, leb,
}
use arkeion.Error.{corrupt, Result, ok, err}
use arkeion.Format.{body_size}
use arkeion.Btree.Cursor.{AppendCursor}
use arkeion.Btree.Read.{Source}

pub record TxStore : Type 0 where
  pub read_page : Source
  pub dirty : ℕ → Option (List ℕ)
  pub freed : List ℕ
  pub alloc_base : ℕ
  pub alloc_next : ℕ
  pub append_cursor : Option AppendCursor

-- The store of a new transaction on a pager with this count of pages.
abbrev pub new : Source → ℕ → TxStore
new read_page n_pages = record {
  read_page = read_page;
  dirty = λ id. none;
  freed = [];
  alloc_base = n_pages;
  alloc_next = n_pages;
  append_cursor = none;
}

-- The map with a page set, or with none at the number.
abbrev pub put : (ℕ → Option (List ℕ)) → ℕ → Option (List ℕ) → ℕ → Option (List ℕ)
put dirty id page i = if i == id then page else dirty i

abbrev pub set_page : TxStore → ℕ → List ℕ → TxStore
set_page s id page = record s { dirty = put s.dirty id (some page) }

unfoldable pub read_at : Option (List ℕ) → ℕ → Source → ℕ → Result (List ℕ)
read_at (some page) alloc_base read_page id = ok page
read_at none alloc_base read_page id =
    if leb alloc_base id then err (corrupt id "página transitoria liberada") else read_page id

-- `body`
abbrev pub body : TxStore → Source
body s id = read_at (s.dirty id) s.alloc_base s.read_page id

-- `PageBuf::zeroed`
abbrev pub zeroed : List ℕ
zeroed = replicate body_size 0

unfoldable pub next_id : TxStore → ℕ × TxStore
next_id s = elim s.freed [
  | [] ↦ (s.alloc_next, record s { alloc_next = s.alloc_next + 1 })
  | id ∷ freed ↦ (id, record s { freed = freed })
]

-- The error case of `alloc` is for other stores.
unfoldable pub alloc : TxStore → ℕ × TxStore
alloc s = let (id, t) = next_id s in (id, set_page t id zeroed)

unfoldable pub make_dirty : TxStore → ℕ → Result ℕ × TxStore
make_dirty s id = elim (s.dirty id) [
  | some page ↦ (ok id, s)
  | none ↦ elim (s.read_page id) [
    | err e ↦ (err e, s)
    | ok src ↦ let (new_id, t) = alloc s in (ok new_id, set_page t new_id src)
  ]
]

unfoldable pub free : TxStore → ℕ → TxStore
free s id = elim (s.dirty id) [
  | none ↦ s
  | some page ↦ record s { dirty = put s.dirty id none; freed = id ∷ s.freed }
]

unfoldable pub is_dirty : TxStore → ℕ → Bool
is_dirty s id = elim (s.dirty id) [ none ↦ false | some page ↦ true ]

unfoldable pub take_append_cursor : TxStore → Option AppendCursor × TxStore
take_append_cursor s = (s.append_cursor, record s { append_cursor = none })

unfoldable pub set_append_cursor : TxStore → Option AppendCursor → TxStore
set_append_cursor s cursor = record s { append_cursor = cursor }
