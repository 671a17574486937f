-- ===== src/Btree/Node/Search.antt =====
-- btree/node.rs: searches inside a page, by its array of pointers, that build no cells.
pub mod Bisect
pub mod Inner
pub mod Prefix
pub mod Lookup
pub mod Leaf
pub mod Find
use Prim.Native.Nat.Ordering.{lt, eq, gt}
use arkeion.Common.{
  ℕ, zero, suc, ◌+◌, ◌-◌, ◌*◌, ◌/◌, Bool, true, false, not, Option, none, some, List, [], ◌∷◌, ◌++◌,
  length, drop, ltb, leb, ◌==◌, if◌then◌else◌,
}
use arkeion.Common.Lex.{lex}
use arkeion.Error.{Result, ok, err, ◌>>=◌}
use arkeion.Btree.Node.{
  type_leaf, type_inner, Payload, bad_page, node_type, ncells_of, get_u64, leaf_prefix_and_start,
  PrefixCmp, below, above, within, cmp_prefix, cell_ptr, inner_key_at,
}
use arkeion.Btree.Node.Parse.{leaf_key_at, read_leaf_payload, inner_rightmost}

-- `lo + (hi - lo) / 2`
abbrev pub mid_of : ℕ → ℕ → ℕ
mid_of lo hi = lo + (hi - lo) / 2

-- The loops that narrow `lo .. hi`: where the test holds at the middle, `lo` goes behind it, and
-- else `hi` goes to it. As many rounds as `hi - lo` are enough.
unfoldable pub bisect : (ℕ → Result Bool) → ℕ → ℕ → ℕ → Result ℕ
bisect test zero lo hi = ok lo
bisect test (suc rounds) lo hi = elim (ltb lo hi) [
  | false ↦ ok lo
  | true ↦ test (mid_of lo hi) >>= λ right. elim right [
    | true ↦ bisect test rounds (mid_of lo hi + 1) hi
    | false ↦ bisect test rounds lo (mid_of lo hi)
  ]
]

abbrev pub key_lt : List ℕ → List ℕ → Bool
key_lt a b = elim (lex a b) [ lt ↦ true | _ ↦ false ]

-- The child at an index, or the rightmost.
unfoldable pub inner_child_value_at : ℕ → List ℕ → ℕ → Result ℕ
inner_child_value_at page body idx =
    if ltb idx (ncells_of body)
    then (inner_key_at page body (cell_ptr body idx) >>= λ (key, pos).
        get_u64 page body pos >>= λ (child, pos). ok child)
    else ok (inner_rightmost body)

-- `ckey > key` sends the search to the left.
unfoldable pub inner_test : ℕ → List ℕ → List ℕ → ℕ → Result Bool
inner_test page body key mid = do
  (ckey, pos) ← inner_key_at page body (cell_ptr body mid)
  ok (not (key_lt key ckey))

unfoldable pub inner_child_indexed : ℕ → List ℕ → List ℕ → Result (ℕ × ℕ)
inner_child_indexed page body key =
    if not (node_type body == type_inner)
    then bad_page page "se esperaba un nodo interno"
    else (bisect (inner_test page body key) (ncells_of body) 0 (ncells_of body) >>= λ lo.
        inner_child_value_at page body lo >>= λ child. ok (child, lo))

unfoldable pub inner_child : ℕ → List ℕ → List ℕ → Result ℕ
inner_child page body key = inner_child_indexed page body key >>= λ (child, index). ok child

unfoldable pub leaf_test : ℕ → List ℕ → List ℕ → ℕ → Result Bool
leaf_test page body krest mid = do
  (flags, suffix, pos) ← leaf_key_at page body (cell_ptr body mid)
  ok (key_lt suffix krest)

unfoldable pub leaf_lower_bound : ℕ → List ℕ → List ℕ → Result ℕ
leaf_lower_bound page body key = do
  (prefix, start) ← leaf_prefix_and_start page body
  elim (cmp_prefix prefix key) [
    | below ↦ ok 0
    | above ↦ ok (ncells_of body)
    | within krest ↦ bisect (leaf_test page body krest) (ncells_of body) 0 (ncells_of body)
  ]

-- The loop of `leaf_seek`, which stops at an equal key: the position of its payload and its flags.
unfoldable pub seek_loop : ℕ → List ℕ → List ℕ → ℕ → ℕ → ℕ → Result (Option (ℕ × ℕ))
seek_loop page body krest zero lo hi = ok none
seek_loop page body krest (suc rounds) lo hi = elim (ltb lo hi) [
  | false ↦ ok none
  | true ↦ leaf_key_at page body (cell_ptr body (mid_of lo hi)) >>= λ (flags, suffix, pos).
      elim (lex suffix krest) [
        | eq ↦ ok (some (pos, flags))
        | lt ↦ seek_loop page body krest rounds (mid_of lo hi + 1) hi
        | gt ↦ seek_loop page body krest rounds lo (mid_of lo hi)
      ]
]

unfoldable pub leaf_seek : ℕ → List ℕ → List ℕ → Result (Option (ℕ × ℕ))
leaf_seek page body key =
    if not (node_type body == type_leaf)
    then bad_page page "se esperaba una hoja"
    else (leaf_prefix_and_start page body >>= λ (prefix, start). elim (cmp_prefix prefix key) [
      | below ↦ ok none
      | above ↦ ok none
      | within krest ↦ seek_loop page body krest (ncells_of body) 0 (ncells_of body)
    ])

unfoldable pub leaf_find : ℕ → List ℕ → List ℕ → Result (Option Payload)
leaf_find page body key = leaf_seek page body key >>= λ found. elim found [
  | none ↦ ok none
  | some (pos, flags) ↦
      read_leaf_payload page body pos flags >>= λ (payload, pos). ok (some payload)
]

unfoldable pub leaf_contains : ℕ → List ℕ → List ℕ → Result Bool
leaf_contains page body key =
    leaf_seek page body key >>= λ found. ok (elim found [ none ↦ false | some at ↦ true ])
