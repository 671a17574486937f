-- ===== src/Btree/Scan/Tree.antt =====
-- A cursor in a tree gives the entries from its start on, in their order.
use arkeion.Common.{
  ℕ, zero, suc, ◌+◌, ◌≤◌, ◌<◌, ◌≡◌, refl, sym, ◌∙◌, ap, arith, true, false, Option, none, some,
  List, [], ◌∷◌, ◌++◌, map, All, length, drop, get_elem?, ltb, leb, Bool-cases, inl, inr,
}
use mathlib.Core.Path.{subst}
use arkeion.Error.{ok, err}
use arkeion.Btree.Loop.{Loop, ◌>>=◌, done}
use arkeion.Btree.Node.{LeafCell, ncells_of, leaf_is_compressed}
use arkeion.Btree.Node.Parse.{parse_inner}
use arkeion.Btree.Node.RoundTrip.{parse_inner-InnerPage}
use arkeion.Btree.Node.Search.{key_lt}
use arkeion.Btree.Node.Search.Bisect.{leading}
use arkeion.Btree.Node.Search.Leaf.{leaf_cell_at-LeafPage}
use arkeion.Btree.Node.Search.Find.{keys_below}
use arkeion.Btree.Read.{Source, read_value}
use arkeion.Btree.Read.Tree.{LeafAt, InnerAt, IsTree}
use arkeion.Btree.Scan.{
  CursorState, LeafScan, Entry, Start, child_at, descend, next_of, ready, emit,
}
use arkeion.Btree.Scan.Yields.{Yields, Gives-ready, Yields-next}
use arkeion.Btree.Scan.Children.{Later, since, skip, Later-Visit, Later-end}

abbrev pub value_or_nil : Loop (List ℕ) → List ℕ
value_or_nil none = []
value_or_nil (some (err e)) = []
value_or_nil (some (ok v)) = v

drop-cons :
    (es : List LeafCell) (i : ℕ) (c : LeafCell) (rest : List LeafCell)
    → drop i es ≡ c ∷ rest
    → (get_elem? es i ≡ some c) × (drop (suc i) es ≡ rest) × (i < length es)
drop-cons [] zero c rest e = absurd cc
drop-cons [] (suc i) c rest e = absurd cc
drop-cons (x ∷ es) zero c rest e = (cc, cc, omega arith)
drop-cons (x ∷ es) (suc i) c rest e =
    let (here, later, inside) = drop-cons es i c rest e in (here, later, omega (arith, inside))

drop-nil : (es : List LeafCell) (i : ℕ) → drop i es ≡ [] → length es ≤ i
drop-nil [] i e = omega arith
drop-nil (x ∷ es) zero e = absurd cc
drop-nil (x ∷ es) (suc i) e = omega (arith, drop-nil es i e)

-- The lower bound of a leaf is where the entries from a key on begin.
pub drop-keys_below :
    (es : List LeafCell) (key : List ℕ) → drop (keys_below es key) es ≡ skip key es
drop-keys_below [] key = refl
drop-keys_below (e ∷ es) key = elim (Bool-cases (key_lt e.key key)) [
  | inl t ↦ rw (keys_below, leading, skip, t) (drop-keys_below es key)
  | inr f ↦ rw (keys_below, leading, skip, f) refl
]

module _ (src : Source) (depth chain : ℕ) where
  abbrev pub entries : List LeafCell → List Entry
  entries = map (λ e. (e.key, value_or_nil (read_value src chain e.payload)))

  abbrev pub Readable : List LeafCell → Type 0
  Readable =
      All
        (λ e. read_value src chain e.payload ≡ done (value_or_nil (read_value src chain e.payload)))

  -- What a stack gives, when no leaf before it has a cell left.
  abbrev pub Ends : List (ℕ × ℕ) → List Entry → Type 0
  Ends stack ys =
      (leaf : Option LeafScan)
      → ready leaf ≡ none
      → Yields src depth chain (record { stack = stack; leaf = leaf }) ys

  abbrev pub scan_of : ℕ → List ℕ → ℕ → LeafScan
  scan_of id body next = record {
    page = id;
    held = body;
    next = next;
    ncells = ncells_of body;
    compressed = leaf_is_compressed body;
  }

  pub leaf-Yields :
      (id : ℕ) (es : List LeafCell) (t : LeafAt src id es) (stack : List (ℕ × ℕ)) (ys : List Entry)
      → Ends stack ys
      → (rest : List LeafCell) (i : ℕ) → drop i es ≡ rest
      → Readable rest
      → Yields src depth chain
          (record { stack = stack; leaf = some (scan_of id t.body i) })
          (entries rest ++ ys)
  unfolding ready emit
  leaf-Yields id es t stack ys k [] i e r =
      let over = drop-nil es i e in
      let count = t.page.ncells in
      let last : ltb i (ncells_of t.body) ≡ false = ground (arith, over, count) in
      k (some (scan_of id t.body i)) (rw (ready, last) refl)
  leaf-Yields id es t stack ys k (c ∷ rest) i e (v, r) =
      let (here, later, inside) = drop-cons es i c rest e in
      let count = t.page.ncells in
      let more : ltb i (ncells_of t.body) ≡ true = ground (arith, inside, count) in
      let cell = leaf_cell_at-LeafPage id t.body es t.prefix t.fits t.page i c here in
      (
        record { stack = stack; leaf = some (scan_of id t.body (suc i)) },
        Gives-ready src depth chain _ _ (scan_of id t.body i)
            (c.key, value_or_nil (read_value src chain c.payload)) (rw (ready, more) refl)
            (rw (emit, cell, ◌>>=◌, v) refl),
        leaf-Yields id es t stack ys k rest (suc i) later r,
      )

  pub entries-join :
      (fs left right : List LeafCell) (ys : List Entry)
      → fs ≡ left ++ right
      → entries left ++ (entries right ++ ys) ≡ entries fs ++ ys
  entries-join fs left right ys e = sym (ap (λ (l : List LeafCell). entries l ++ ys) e ∙ go left)
    where
      go :
          (left : List LeafCell)
          → entries (left ++ right) ++ ys ≡ entries left ++ (entries right ++ ys)
      go [] = refl
      go (x ∷ left) =
          ap (λ (l : List Entry). (x.key, value_or_nil (read_value src chain x.payload)) ∷ l)
            (go left)

  pub Readable-append :
      (left right : List LeafCell) → Readable (left ++ right) → Readable left × Readable right
  Readable-append [] right r = (tt, r)
  Readable-append (x ∷ left) right (v, r) = let (a, b) = Readable-append left right r in ((v, a), b)

  -- A descent that comes to a state with the entries from its start on, and then those of the stack.
  pub record Descends (depth_left id : ℕ) (start : Start) (stack : List (ℕ × ℕ)) (es : List Entry)
      : Type 0 where
    pub state : CursorState
    pub comes : descend src depth_left (record { stack = stack; leaf = none }) id start ≡ done state
    pub yields : Yields src depth chain state es

  -- Every tree of a height is descended.
  abbrev pub Descent : ℕ → Type 0
  Descent h =
      (id left : ℕ) (es : List LeafCell) (start : Start) (stack : List (ℕ × ℕ)) (ys : List Entry)
      → IsTree src h id es
      → h < left
      → Readable (since start es)
      → Ends stack ys
      → Descends left id start stack (entries (since start es) ++ ys)

  module _ (h id : ℕ) (es : List LeafCell) (t : InnerAt src (IsTree src h) id es) where
    pub node_parsed : parse_inner id t.body ≡ ok (t.cells, t.rightmost)
    node_parsed = parse_inner-InnerPage id t.body t.cells t.rightmost t.fits t.ordered t.page

    -- A frame whose children are all visited.
    end-Ends :
        (stack : List (ℕ × ℕ)) (ys : List Entry) (i : ℕ) (fs : List LeafCell)
        → Ends stack ys
        → Later (IsTree src h) t.cells t.rightmost i fs
        → leb i (length t.cells) ≡ false
        → Ends ((id, i) ∷ stack) (entries fs ++ ys)
    unfolding next_of ready
    end-Ends stack ys i fs k l past leaf no_cell =
        let behind : length t.cells < i = ground (arith, past) in
        let none_left = Later-end (IsTree src h) t.cells t.rightmost i fs l behind in
        let next : next_of src depth ((id, i) ∷ stack)
            ≡ done (true, record { stack = stack; leaf = none }) =
          rw (next_of, t.read, node_parsed, past) refl in
        subst
          (λ (f : List LeafCell).
            Yields src depth chain (record { stack = (id, i) ∷ stack; leaf = leaf })
              (entries f ++ ys))
          (sym none_left)
          (Yields-next src depth chain _ (record { stack = stack; leaf = none }) ys no_cell next
            (k none refl))

    -- A frame with a child to visit, before the frame behind it.
    visit-Ends :
        (stack : List (ℕ × ℕ)) (ys : List Entry) (i : ℕ) (fs : List LeafCell)
        → Descent h
        → h < depth
        → ((behind : List LeafCell)
            → Later (IsTree src h) t.cells t.rightmost (suc i) behind
            → Readable behind
            → Ends ((id, suc i) ∷ stack) (entries behind ++ ys))
        → Later (IsTree src h) t.cells t.rightmost i fs
        → Readable fs
        → leb i (length t.cells) ≡ true
        → Ends ((id, i) ∷ stack) (entries fs ++ ys)
    unfolding next_of
    visit-Ends stack ys i fs descent deep rest l r within leaf no_cell =
        let inside : i ≤ length t.cells = ground (arith, within) in
        let v = Later-Visit (IsTree src h) t.cells t.rightmost i fs l inside in
        let (near, far) = Readable-append v.here v.behind (subst Readable v.joined r) in
        let d =
          descent (child_at t.cells t.rightmost i) depth v.here none ((id, suc i) ∷ stack)
            (entries v.behind ++ ys) v.child deep near (rest v.behind v.later far) in
        let next : next_of src depth ((id, i) ∷ stack) ≡ done (true, d.state) =
          rw (next_of, t.read, node_parsed, within, d.comes) refl in
        subst
          (λ (l : List Entry).
            Yields src depth chain (record { stack = (id, i) ∷ stack; leaf = leaf }) l)
          (entries-join fs v.here v.behind ys v.joined)
          (Yields-next src depth chain _ d.state _ no_cell next d.yields)

    pub frame-Ends :
        (left i : ℕ) (stack : List (ℕ × ℕ)) (ys : List Entry) (fs : List LeafCell)
        → Descent h
        → h < depth
        → Ends stack ys
        → length t.cells < left + i
        → Later (IsTree src h) t.cells t.rightmost i fs
        → Readable fs
        → Ends ((id, i) ∷ stack) (entries fs ++ ys)
    frame-Ends zero i stack ys fs descent deep k enough l r =
        let past : leb i (length t.cells) ≡ false = ground (arith, enough) in
        end-Ends stack ys i fs k l past
    frame-Ends (suc left) i stack ys fs descent deep k enough l r =
        elim (Bool-cases (leb i (length t.cells))) [
          | inr past ↦ end-Ends stack ys i fs k l past
          | inl within ↦
              visit-Ends stack ys i fs descent deep
                (λ behind later far.
                  frame-Ends left (suc i) stack ys behind descent deep k (omega (arith, enough))
                    later far)
                l r within
        ]
