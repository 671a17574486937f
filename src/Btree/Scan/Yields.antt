-- ===== src/Btree/Scan/Yields.antt =====
-- What a state of a cursor goes on to give.
use arkeion.Common.{
  ℕ, zero, suc, ◌+◌, ◌≤◌, ◌≡◌, refl, arith, true, Option, none, some, List, [], ◌∷◌,
}
use arkeion.Btree.Loop.{done}
use arkeion.Btree.Read.{Source}
use arkeion.Btree.Scan.{
  CursorState, LeafScan, Entry, next_of, next_leaf, ready, emit, advance, collect,
}

module _ (src : Source) (depth chain : ℕ) where
  -- A result of `advance`, given enough rounds.
  abbrev pub Gives : CursorState → Option Entry × CursorState → Type 0
  Gives s r =
      (least : ℕ) × ((rounds : ℕ) → least ≤ rounds → advance src depth chain rounds s ≡ done r)

  abbrev pub Yields : CursorState → List Entry → Type 0
  Yields s [] = (t : CursorState) × Gives s (none, t)
  Yields s (e ∷ es) = (t : CursorState) × Gives s (some e, t) × Yields t es

  pub Gives-ready :
      (s t : CursorState) (l : LeafScan) (e : Entry)
      → ready s.leaf ≡ some l
      → emit src chain s l ≡ done (some e, t)
      → Gives s (some e, t)
  unfolding advance
  Gives-ready s t l e r out = (1, go)
    where
      go : (rounds : ℕ) → 1 ≤ rounds → advance src depth chain rounds s ≡ done (some e, t)
      go zero h = absurd (omega (arith, h))
      go (suc rounds) h = rw (advance, r) out

  Gives-next :
      (s t : CursorState) (r : Option Entry × CursorState)
      → ready s.leaf ≡ none
      → next_leaf src depth s ≡ done (true, t)
      → Gives t r
      → Gives s r
  unfolding advance
  Gives-next s t r no_cell next (least, later) = (suc least, go)
    where
      go : (rounds : ℕ) → suc least ≤ rounds → advance src depth chain rounds s ≡ done r
      go zero h = absurd (omega (arith, h))
      go (suc rounds) h = rw (advance, no_cell, next) (later rounds (omega (arith, h)))

  pub Yields-next :
      (s t : CursorState) (es : List Entry)
      → ready s.leaf ≡ none
      → next_leaf src depth s ≡ done (true, t)
      → Yields t es
      → Yields s es
  Yields-next s t [] no_cell next (u, g) = (u, Gives-next s t (none, u) no_cell next g)
  Yields-next s t (e ∷ es) no_cell next (u, g, y) =
      (u, Gives-next s t (some e, u) no_cell next g, y)

  pub Yields-end : (s : CursorState) → ready s.leaf ≡ none → s.stack ≡ [] → Yields s []
  unfolding advance next_of
  Yields-end s no_cell empty = (record { stack = []; leaf = none }, (1, go))
    where
      go :
          (rounds : ℕ)
          → 1 ≤ rounds
          → advance src depth chain rounds s ≡ done (none, record { stack = []; leaf = none })
      go zero h = absurd (omega (arith, h))
      go (suc rounds) h = rw (advance, no_cell, next_of, empty) refl

  -- What is yielded is collected, with enough rounds.
  pub collect-Yields :
      (es : List Entry) (s : CursorState)
      → Yields s es
      → (least : ℕ) × ((rounds : ℕ) → least ≤ rounds → collect src depth chain rounds s ≡ done es)
  unfolding collect
  collect-Yields [] s (t, (least, g)) = (suc least, go)
    where
      go : (rounds : ℕ) → suc least ≤ rounds → collect src depth chain rounds s ≡ done []
      go zero h = absurd (omega (arith, h))
      go (suc rounds) h = rw (collect, g (suc rounds) (omega (arith, h))) refl
  collect-Yields (e ∷ es) s (t, (least, g), y) =
      let (later, c) = collect-Yields es t y in (suc (least + later), go later c)
    where
      go :
          (later : ℕ)
          → ((rounds : ℕ) → later ≤ rounds → collect src depth chain rounds t ≡ done es)
          → (rounds : ℕ) → suc (least + later) ≤ rounds
          → collect src depth chain rounds s ≡ done (e ∷ es)
      go later c zero h = absurd (omega (arith, h))
      go later c (suc rounds) h =
          rw (collect, g (suc rounds) (omega (arith, h)), c rounds (omega (arith, h))) refl
