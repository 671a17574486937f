-- ===== src/Btree/Read.antt =====
-- btree/mod.rs: lookups in the tree under a root. A source of pages is the function that gives the
-- body of a page or the error of the read; a loop that follows page numbers runs on fuel, since pages
-- may link in a circle.
pub mod Tree
pub mod Children
pub mod Get
use arkeion.Common.{
  ℕ, zero, suc, ◌+◌, Bool, true, false, not, Option, none, some, List, [], ◌∷◌, ◌++◌, length, ◌==◌,
  if◌then◌else◌,
}
use arkeion.Error.{corrupt, Result, ok, err}
use arkeion.Btree.Loop.{Loop, ◌>>=◌, done, fail}
use arkeion.Btree.Node.{type_leaf, type_inner, Payload, inline, overflow, bad_page, node_type}
use arkeion.Btree.Node.Parse.{parse_overflow}
use arkeion.Btree.Node.Search.{inner_child, leaf_find, leaf_contains}

-- `NodeSource::body`
abbrev pub Source : Type 0
Source = ℕ → Result (List ℕ)

abbrev pub no_root : ℕ
no_root = 0

-- The match on the type of a node.
pub data NodeKind : Type 0 where
  inner_kind leaf_kind other_kind : NodeKind

unfoldable pub node_kind : List ℕ → NodeKind
node_kind body =
    if node_type body == type_inner
    then inner_kind
    else (if node_type body == type_leaf then leaf_kind else other_kind)

-- The loop of `read_value` over the pages of a chain, and its check at the end.
unfoldable pub read_chain : Source → ℕ → ℕ → List ℕ → Loop (List ℕ)
read_chain src zero id out = none
read_chain src (suc fuel) id out = elim (id == no_root) [
  | true ↦ done out
  | false ↦ some (src id) >>= λ body.
      some (parse_overflow id body) >>= λ (chunk, next). read_chain src fuel next (out ++ chunk)
]

unfoldable pub read_value : Source → ℕ → Payload → Loop (List ℕ)
read_value src fuel (inline v) = done v
read_value src fuel (overflow total_len first) = read_chain src fuel first [] >>= λ out.
    if not (length out == total_len)
    then some (bad_page first "cadena overflow incompleta")
    else done out

-- The loop of `get`; the chain of a value has fuel of its own.
unfoldable pub get_loop : Source → ℕ → ℕ → ℕ → List ℕ → Loop (Option (List ℕ))
get_loop src chain zero id key = none
get_loop src chain (suc fuel) id key = some (src id) >>= λ body. elim (node_kind body) [
  | inner_kind ↦ some (inner_child id body key) >>= λ child. get_loop src chain fuel child key
  | leaf_kind ↦ some (leaf_find id body key) >>= λ found. elim found [
    | none ↦ done none
    | some payload ↦ read_value src chain payload >>= λ v. done (some v)
  ]
  | other_kind ↦ some (bad_page id "tipo de nodo inesperado")
]

unfoldable pub get : Source → ℕ → ℕ → List ℕ → Loop (Option (List ℕ))
get src fuel root key = if root == no_root then done none else get_loop src fuel fuel root key

unfoldable pub contains_loop : Source → ℕ → ℕ → List ℕ → Loop Bool
contains_loop src zero id key = none
contains_loop src (suc fuel) id key = some (src id) >>= λ body. elim (node_kind body) [
  | inner_kind ↦ some (inner_child id body key) >>= λ child. contains_loop src fuel child key
  | leaf_kind ↦ some (leaf_contains id body key)
  | other_kind ↦ some (bad_page id "tipo de nodo inesperado")
]

unfoldable pub contains : Source → ℕ → ℕ → List ℕ → Loop Bool
contains src fuel root key = if root == no_root then done false else contains_loop src fuel root key
