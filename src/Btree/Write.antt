-- ===== src/Btree/Write.antt =====
-- btree/mod.rs: what insert and delete share: overflow chains that are written and freed, and the
-- searches of the parsed cells.
pub mod Chain
pub mod Steps
use Prim.Native.Nat.Ordering.{lt, eq, gt}
use arkeion.Common.{
  ℕ, zero, suc, ◌+◌, ◌≤◌, Bool, true, false, not, ◌&&◌, Option, none, some, List, [], ◌∷◌, ◌++◌,
  length, take, drop, ◌==◌, ltb, leb, if◌then◌else◌,
}
use arkeion.Common.Lex.{lex}
use arkeion.Error.{ok, err}
use arkeion.Btree.Node.{
  Payload, inline, overflow, LeafCell, InnerCell, overflow_data, inline_cell_size, max_inline_cell,
}
use arkeion.Btree.Node.Parse.{parse_overflow}
use arkeion.Btree.Node.Write.{encode_overflow}
use arkeion.Btree.Node.Search.{key_lt}
use arkeion.Btree.Read.{no_root}
use arkeion.Tx.Store.{TxStore, body, alloc, set_page, free, is_dirty}
use arkeion.Tx.Store.Run.{Run, ◌>>=◌, done, body_mut}

-- `chunks`, on as many rounds as there are bytes.
unfoldable pub chunks : ℕ → ℕ → List ℕ → List (List ℕ)
chunks zero size bytes = []
chunks (suc rounds) size [] = []
chunks (suc rounds) size (x ∷ bytes) =
    take size (x ∷ bytes) ∷ chunks rounds size (drop size (x ∷ bytes))

-- The loop of `write_chain`, from the last chunk to the first.
unfoldable pub write_chunks : List (List ℕ) → TxStore → Run ℕ
write_chunks [] s = done no_root s
write_chunks (chunk ∷ later) s = write_chunks later s >>= λ next s.
    let (id, t) = alloc s in
    body_mut t id (λ page. done id (set_page t id (encode_overflow chunk next page)))

unfoldable pub write_chain : TxStore → List ℕ → Run ℕ
write_chain s value = write_chunks (chunks (length value) overflow_data value) s

-- The payload that `insert` makes of a value.
unfoldable pub make_payload : TxStore → List ℕ → List ℕ → Run Payload
make_payload s key value =
    if leb (inline_cell_size key (length value)) max_inline_cell
    then done (inline value) s
    else (write_chain s value >>= λ first s. done (overflow (length value) first) s)

-- The loop of `free_payload`, which ends without an error where the chain cannot be read.
unfoldable pub free_chain : ℕ → TxStore → ℕ → Run {0} Unit
free_chain zero s id = none
free_chain (suc fuel) s id = elim (id == no_root) [
  | true ↦ done tt s
  | false ↦ elim (body s id) [
    | err e ↦ done tt s
    | ok page ↦ elim (parse_overflow id page) [
      | err e ↦ done tt s
      | ok found ↦ let (chunk, next) = found in free_chain fuel (free s id) next
    ]
  ]
]

unfoldable pub free_payload : ℕ → TxStore → Payload → Run {0} Unit
free_payload fuel s (inline v) = done tt s
free_payload fuel s (overflow total_len first) =
    if is_dirty s first then free_chain fuel s first else done tt s

-- What `binary_search_by` says of cells with increasing keys.
pub data Position : Type 0 where
  found absent : ℕ → Position

abbrev behind : Position → Position
behind (found i) = found (suc i)
behind (absent i) = absent (suc i)

unfoldable pub search_key : List LeafCell → List ℕ → Position
search_key [] key = absent 0
search_key (c ∷ cells) key = elim (lex c.key key) [
  | lt ↦ behind (search_key cells key)
  | eq ↦ found 0
  | gt ↦ absent 0
]

-- `partition_point` of the separators that are not above the key.
unfoldable pub child_index : List InnerCell → List ℕ → ℕ
child_index [] key = 0
child_index (c ∷ cells) key = elim (key_lt key c.key) [
  | true ↦ 0
  | false ↦ suc (child_index cells key)
]

-- `insert` and `remove` of a vector.
abbrev pub insert_at {ℓ} : {A : Type ℓ} → ℕ → A → List A → List A
insert_at i x xs = take i xs ++ x ∷ drop i xs

abbrev pub remove_at {ℓ} : {A : Type ℓ} → ℕ → List A → List A
remove_at i xs = take i xs ++ drop (suc i) xs

abbrev pub set_child : List InnerCell → ℕ → ℕ → List InnerCell
set_child [] i child = []
set_child (c ∷ cells) zero child = record c { child = child } ∷ cells
set_child (c ∷ cells) (suc i) child = c ∷ set_child cells i child

-- The child of a slot, of which the last is the rightmost.
unfoldable pub put_child : List InnerCell → ℕ → ℕ → ℕ → List InnerCell × ℕ
put_child cells rightmost i child =
    if ltb i (length cells) then (set_child cells i child, rightmost) else (cells, child)
