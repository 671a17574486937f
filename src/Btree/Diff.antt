-- ===== src/Btree/Diff.antt =====
-- btree/mod.rs: the diff of two trees. A function that appends to `out` gives what it appends. The
-- recursion on pairs of subtrees runs on fuel for their height.
pub mod Merge
pub mod Flat
use Prim.Native.Nat.{Ordering}
use Prim.Native.Nat.Ordering.{lt, eq, gt}
use arkeion.Common.{
  ℕ, zero, suc, ◌+◌, Bool, true, false, not, ◌&&◌, Option, none, some, List, [], ◌∷◌, ◌++◌, map,
  length, ◌==◌, if◌then◌else◌,
}
use arkeion.Common.Lex.{lex}
use arkeion.Branch.{KeyDiff, KeyChange, key_added, key_removed, key_modified}
use arkeion.Btree.Loop.{Loop, ◌>>=◌, done}
use arkeion.Btree.Node.{InnerCell, type_inner, node_type}
use arkeion.Btree.Node.Parse.{parse_inner}
use arkeion.Btree.Node.Search.{key_lt}
use arkeion.Btree.Read.{Source, no_root}
use arkeion.Btree.Scan.{CursorState, Entry, scan_state, advance}

-- The end of a range, which is open where there is none.
abbrev pub Bound : Type 0
Bound = Option (List ℕ)

abbrev pub change : List ℕ → KeyChange → KeyDiff
change key c = record { key = key; change = c }

abbrev pub all_added : List Entry → List KeyDiff
all_added = map (λ (e : Entry). change e.0 (key_added e.1))

abbrev pub all_removed : List Entry → List KeyDiff
all_removed = map (λ (e : Entry). change e.0 (key_removed e.1))

unfoldable pub max_lower : Bound → Bound → Bound
max_lower none b = b
max_lower (some x) none = some x
max_lower (some x) (some y) = some (if key_lt y x then x else y)

unfoldable pub min_upper : Bound → Bound → Bound
min_upper none b = b
min_upper (some x) none = some x
min_upper (some x) (some y) = some (if key_lt y x then y else x)

unfoldable pub range_valid : Bound → Bound → Bool
range_valid (some l) (some h) = key_lt l h
range_valid _ _ = true

-- `hi.is_some_and(|h| key >= h)`
abbrev pub beyond : Bound → List ℕ → Bool
beyond none key = false
beyond (some h) key = not (key_lt key h)

-- The loop of `collect_range`.
unfoldable pub collect_below : Source → ℕ → ℕ → Bound → CursorState → Loop (List Entry)
collect_below src fuel zero hi s = none
collect_below src fuel (suc rounds) hi s = advance src fuel fuel (suc rounds) s >>= λ (entry, s).
    elim entry [
      | none ↦ done []
      | some e ↦
          if beyond hi e.0
          then done []
          else (collect_below src fuel rounds hi s >>= λ later. done (e ∷ later))
    ]

abbrev pub or_empty : Bound → List ℕ
or_empty none = []
or_empty (some key) = key

unfoldable pub collect_range : Source → ℕ → ℕ → ℕ → Bound → Bound → Loop (List Entry)
collect_range src fuel rounds id lo hi =
    if id == no_root
    then done []
    else (scan_state src fuel id (some (or_empty lo)) >>= λ s. collect_below src fuel rounds hi s)

-- A key of both, in front of the changes of the later ones.
abbrev pub both_changes : List ℕ → List ℕ → List ℕ → List KeyDiff → List KeyDiff
both_changes key v w later = elim (lex v w) [
  | eq ↦ later
  | _ ↦ change key (key_modified v w) ∷ later
]

-- The loop of `diff_flat` on what is left of both, and what it appends behind it.
unfoldable pub merge_loop : ℕ → List Entry → List Entry → List KeyDiff
merge_loop rounds [] b = all_added b
merge_loop rounds (x ∷ a) [] = all_removed (x ∷ a)
merge_loop zero (x ∷ a) (y ∷ b) = []
merge_loop (suc rounds) (x ∷ a) (y ∷ b) = elim (lex x.0 y.0) [
  | lt ↦ change x.0 (key_removed x.1) ∷ merge_loop rounds a (y ∷ b)
  | gt ↦ change y.0 (key_added y.1) ∷ merge_loop rounds (x ∷ a) b
  | eq ↦ both_changes x.0 x.1 y.1 (merge_loop rounds a b)
]

abbrev pub merge : List Entry → List Entry → List KeyDiff
merge a b = merge_loop (length a + length b) a b

unfoldable pub diff_flat : Source → ℕ → ℕ → ℕ → ℕ → Bound → Bound → Loop (List KeyDiff)
diff_flat src fuel rounds from to lo hi = collect_range src fuel rounds from lo hi >>= λ a.
    collect_range src fuel rounds to lo hi >>= λ b. done (merge a b)

pub record Interval : Type 0 where
  pub lower : Bound
  pub upper : Bound
  pub child : ℕ

unfoldable pub intervals : Bound → List InnerCell → ℕ → List Interval
intervals prev [] rightmost = record { lower = prev; upper = none; child = rightmost } ∷ []
intervals prev (c ∷ cells) rightmost =
    record { lower = prev; upper = some c.key; child = c.child }
    ∷ intervals (some c.key) cells rightmost

unfoldable pub child_intervals : Source → ℕ → Loop (List Interval)
child_intervals src id = some (src id) >>= λ body.
    some (parse_inner id body) >>= λ (cells, rightmost). done (intervals none cells rightmost)

-- Which of two upper ends is the least; an open one is above all.
abbrev pub compare_upper : Bound → Bound → Ordering
compare_upper none none = eq
compare_upper none (some y) = gt
compare_upper (some x) none = lt
compare_upper (some x) (some y) = lex x y

-- The children of the two nodes side by side, each pair of them by `below`.
unfoldable pub zip_intervals :
    (ℕ → ℕ → Bound → Bound → Loop (List KeyDiff))
    → ℕ
    → Bound
    → Bound
    → List Interval
    → List Interval
    → Loop (List KeyDiff)
zip_intervals below rounds lo hi [] b = done []
zip_intervals below rounds lo hi (x ∷ a) [] = done []
zip_intervals below zero lo hi (x ∷ a) (y ∷ b) = none
zip_intervals below (suc rounds) lo hi (x ∷ a) (y ∷ b) =
    let seg_lo = max_lower (max_lower x.lower y.lower) lo in
    let seg_hi = min_upper (min_upper x.upper y.upper) hi in
    (if range_valid seg_lo seg_hi then below x.child y.child seg_lo seg_hi else done []) >>= λ here.
    elim (compare_upper x.upper y.upper) [
      | lt ↦ zip_intervals below rounds lo hi a (y ∷ b)
      | gt ↦ zip_intervals below rounds lo hi (x ∷ a) b
      | eq ↦ zip_intervals below rounds lo hi a b
    ]
    >>= λ later. done (here ++ later)

unfoldable pub diff_inner :
    Source
    → (ℕ → ℕ → Bound → Bound → Loop (List KeyDiff))
    → ℕ
    → ℕ
    → Bound
    → Bound
    → Loop (List KeyDiff)
diff_inner src below from to lo hi = child_intervals src from >>= λ a.
    child_intervals src to >>= λ b. zip_intervals below (length a + length b) lo hi a b

unfoldable pub diff_range : ℕ → Source → ℕ → ℕ → ℕ → ℕ → Bound → Bound → Loop (List KeyDiff)
diff_range zero src fuel rounds from to lo hi = none
diff_range (suc levels) src fuel rounds from to lo hi =
    if from == to
    then done []
    else (if from == no_root
        then (collect_range src fuel rounds to lo hi >>= λ b. done (all_added b))
        else (if to == no_root
            then (collect_range src fuel rounds from lo hi >>= λ a. done (all_removed a))
            else (some (src from) >>= λ a. some (src to) >>= λ b.
                if (node_type a == type_inner) && (node_type b == type_inner)
                then diff_inner src
                    (λ from to lo hi. diff_range levels src fuel rounds from to lo hi) from to lo hi
                else diff_flat src fuel rounds from to lo hi)))

unfoldable pub diff : ℕ → Source → ℕ → ℕ → ℕ → ℕ → Loop (List KeyDiff)
diff levels src fuel rounds from to = diff_range levels src fuel rounds from to none none
