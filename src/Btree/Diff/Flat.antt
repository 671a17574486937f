-- ===== src/Btree/Diff/Flat.antt =====
-- The flat diff of two trees that are maps, in a range of keys.
use arkeion.Common.{
  ℕ, zero, suc, ◌+◌, ◌≤◌, ◌≡◌, refl, arith, false, some, List, [], ◌∷◌, length, ◌==◌, Bool-cases,
  inl, inr, if◌then◌else◌,
}
use arkeion.Branch.{KeyDiff}
use arkeion.Btree.Loop.{◌>>=◌, done}
use arkeion.Btree.Node.Search.{key_lt}
use arkeion.Btree.Read.{Source, no_root}
use arkeion.Btree.Read.Get.{IsMap}
use arkeion.Btree.Scan.{CursorState, Entry}
use arkeion.Btree.Scan.Yields.{Yields}
use arkeion.Btree.Scan.Map.{from, scan_state-IsMap}
use arkeion.Btree.Diff.{Bound, beyond, or_empty, collect_below, collect_range, merge, diff_flat}
use arkeion.Btree.Diff.Merge.{AllAbove, Sorted, Tells, merge_loop-Tells}

-- The entries in front of the end of a range, and those in a range.
abbrev pub below : Bound → List Entry → List Entry
below hi [] = []
below hi ((k, v) ∷ kvs) = if beyond hi k then [] else (k, v) ∷ below hi kvs

abbrev pub range : Bound → Bound → List Entry → List Entry
range lo hi kvs = below hi (from (some (or_empty lo)) kvs)

AllAbove-from :
    (key low : List ℕ) (es : List Entry) → AllAbove key es → AllAbove key (from (some low) es)
AllAbove-from key low [] h = tt
AllAbove-from key low ((k, v) ∷ es) (b, h) = elim (Bool-cases (key_lt k low)) [
  | inl t ↦ rw (from, t) (AllAbove-from key low es h)
  | inr f ↦ rw (from, f) (b, h)
]

Sorted-from : (low : List ℕ) (es : List Entry) → Sorted es → Sorted (from (some low) es)
Sorted-from low [] h = tt
Sorted-from low ((k, v) ∷ es) (b, h) = elim (Bool-cases (key_lt k low)) [
  | inl t ↦ rw (from, t) (Sorted-from low es h)
  | inr f ↦ rw (from, f) (b, h)
]

AllAbove-below :
    (key : List ℕ) (hi : Bound) (es : List Entry) → AllAbove key es → AllAbove key (below hi es)
AllAbove-below key hi [] h = tt
AllAbove-below key hi ((k, v) ∷ es) (b, h) = elim (Bool-cases (beyond hi k)) [
  | inl t ↦ rw (below, t) tt
  | inr f ↦ rw (below, f) (b, AllAbove-below key hi es h)
]

Sorted-below : (hi : Bound) (es : List Entry) → Sorted es → Sorted (below hi es)
Sorted-below hi [] h = tt
Sorted-below hi ((k, v) ∷ es) (b, h) = elim (Bool-cases (beyond hi k)) [
  | inl t ↦ rw (below, t) tt
  | inr f ↦ rw (below, f) (AllAbove-below k hi es b, Sorted-below hi es h)
]

Sorted-range : (lo hi : Bound) (es : List Entry) → Sorted es → Sorted (range lo hi es)
Sorted-range lo hi es h = Sorted-below hi _ (Sorted-from (or_empty lo) es h)

module _ (src : Source) (fuel : ℕ) where
  -- Enough rounds for the loop, whatever it comes to.
  abbrev Collects : CursorState → Bound → List Entry → Type 0
  Collects s hi es =
      (least : ℕ) × ((rounds : ℕ) → least ≤ rounds → collect_below src fuel rounds hi s ≡ done es)

  collect_below-Yields :
      (es : List Entry) (s : CursorState) (hi : Bound)
      → Yields src fuel fuel s es
      → Collects s hi (below hi es)
  unfolding collect_below
  collect_below-Yields [] s hi (t, (least, g)) = (suc least, go)
    where
      go : (rounds : ℕ) → suc least ≤ rounds → collect_below src fuel rounds hi s ≡ done []
      go zero h = absurd (omega (arith, h))
      go (suc rounds) h = rw (collect_below, g (suc rounds) (omega (arith, h))) refl
  collect_below-Yields ((k, v) ∷ es) s hi (t, (least, g), y) =
      let (later, c) = collect_below-Yields es t hi y in (suc (least + later), go later c)
    where
      go :
          (later : ℕ)
          → ((rounds : ℕ)
              → later ≤ rounds
              → collect_below src fuel rounds hi t ≡ done (below hi es))
          → (rounds : ℕ) → suc (least + later) ≤ rounds
          → collect_below src fuel rounds hi s ≡ done (below hi ((k, v) ∷ es))
      go later c zero h = absurd (omega (arith, h))
      go later c (suc rounds) h =
          let first = g (suc rounds) (omega (arith, h)) in
          elim (Bool-cases (beyond hi k)) [
            | inl past ↦ rw (collect_below, first, below, past) refl
            | inr within ↦
                rw (collect_below, first, below, within, c rounds (omega (arith, h))) refl
          ]

  collect_range-IsMap :
      (root : ℕ) (lo hi : Bound) (kvs : List Entry)
      → IsMap src root fuel kvs
      → (least : ℕ) × ((rounds : ℕ)
          → least ≤ rounds
          → collect_range src fuel rounds root lo hi ≡ done (range lo hi kvs))
  unfolding collect_range
  collect_range-IsMap root lo hi kvs m =
      let other : (root == no_root) ≡ false = ground (arith, m.rooted) in
      let (s, begins, yields) = scan_state-IsMap src root fuel (some (or_empty lo)) kvs m in
      let (least, c) = collect_below-Yields (from (some (or_empty lo)) kvs) s hi yields in
      (least, λ rounds enough. rw (collect_range, other, begins, ◌>>=◌) (c rounds enough))

  -- On the pages of two trees with increasing keys, with values that can be read and with fuel for
  -- their heights, there is a count of rounds from which on diff_flat ends, with one list of
  -- changes: for every key it has what happened to it between the entries of the one and of the
  -- other tree in the range, and nothing where they agree.
  pub diff_flat-IsMap :
      (from_root to_root : ℕ) (lo hi : Bound) (kvs lvs : List Entry)
      → IsMap src from_root fuel kvs
      → IsMap src to_root fuel lvs
      → Sorted kvs
      → Sorted lvs
      → (ds : List KeyDiff) × Tells ds (range lo hi kvs) (range lo hi lvs)
        × ((least : ℕ) × ((rounds : ℕ)
              → least ≤ rounds
              → diff_flat src fuel rounds from_root to_root lo hi ≡ done ds))
  unfolding diff_flat
  diff_flat-IsMap from_root to_root lo hi kvs lvs m n sk sl =
      let (least_a, a) = collect_range-IsMap from_root lo hi kvs m in
      let (least_b, b) = collect_range-IsMap to_root lo hi lvs n in
      (
        merge (range lo hi kvs) (range lo hi lvs),
        merge_loop-Tells (length (range lo hi kvs) + length (range lo hi lvs)) (range lo hi kvs)
            (range lo hi lvs) (Sorted-range lo hi kvs sk) (Sorted-range lo hi lvs sl) (omega arith),
        (
          least_a + least_b,
          λ rounds enough.
              rw
                (
                  diff_flat,
                  a rounds (omega (arith, enough)),
                  ◌>>=◌,
                  b rounds (omega (arith, enough)),
                )
                refl,
        ),
      )
