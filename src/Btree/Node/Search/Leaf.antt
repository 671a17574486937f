-- ===== src/Btree/Node/Search/Leaf.antt =====
-- The cells of a leaf page read by their pointers, and the search for a key among them: it hits the
-- cell with the key, or there is none.
use Prim.Native.Nat.Ordering.{lt, eq, gt}
use Prim.Native.Nat.{Ordering}
use arkeion.Common.{
  ℕ, zero, suc, ◌+◌, ◌≤◌, ◌<◌, ◌≡◌, ◌⊎◌, refl, ap, sym, ◌∙◌, arith, true, inl, inr, Bool-cases,
  Option, none, some, List, ◌++◌, map, All, All-get_elem?, length, length-map, drop, get_elem?,
  get_elem?-map, get_elem?-total, get_elem?-lt_length, ltb, ◌==◌,
}
use mathlib.Core.Path.{subst}
use mathlib.Core.Option.{some-injective}
use arkeion.Common.Cursor.{At-length}
use arkeion.Common.Lex.{lex}
use arkeion.Common.LexOrder.{Below, Below-irrefl, Below-trans, lex-cases, lex-shared}
use arkeion.Error.{Result, ok, ◌>>=◌}
use arkeion.Btree.Node.{LeafCell, cell_ptr}
use arkeion.Btree.Node.Write.Pages.{Slotted-At, Slotted-cell_ptr, place}
use arkeion.Btree.Node.Parse.{leaf_key_at, read_leaf_payload, leaf_cell_at}
use arkeion.Btree.Node.Parse.Reads.{reads-leaf_cell}
use arkeion.Btree.Node.Parse.RoundTrip.{Ordered, leaf_block, leaf_keys, HasPrefix}
use arkeion.Btree.Node.LeafPage.{IsLeafCell, LeafPage}
use arkeion.Btree.Node.Search.{mid_of, seek_loop}
use arkeion.Btree.Node.Search.Lookup.{Ordered-increasing}

module _ (page : ℕ) (body : List ℕ) (cells : List LeafCell) (prefix : List ℕ)
    (h : All IsLeafCell cells) (p : LeafPage body cells prefix) where
  -- A cell is read by its pointer.
  pub record CellRead (c : LeafCell) (i : ℕ) : Type 0 where
    pub flags : ℕ
    pub suffix : List ℕ
    pub payload_pos : ℕ
    pub end : ℕ
    pub key_is : prefix ++ suffix ≡ c.key
    pub key_read : leaf_key_at page body (cell_ptr body i) ≡ ok (flags, suffix, payload_pos)
    pub payload_read : read_leaf_payload page body payload_pos flags ≡ ok (c.payload, end)

  pub reads-cell : (i : ℕ) (c : LeafCell) → get_elem? cells i ≡ some c → CellRead c i
  reads-cell i c e =
      let small = p.small in
      let block : LeafCell → List ℕ = leaf_block (length prefix) in
      let blocks : List (List ℕ) = map block cells in
      let off : ℕ = place (length p.front) blocks i in
      let (rest, at) =
        Slotted-At body p.front blocks p.slotted i (block c) (get_elem?-map block cells i c e) in
      let there = At-length body (block c ++ rest) off at in
      let ptr : cell_ptr body i ≡ off =
        Slotted-cell_ptr body p.front blocks p.slotted i
          (omega (arith, get_elem?-lt_length cells i c e, length-map block cells)) (omega arith) in
      let cell = All-get_elem? IsLeafCell cells i c h e in
      let r =
        reads-leaf_cell page body (omega arith) (drop (length prefix) c.key) c.payload rest off
          cell.1 at in
      record {
        flags = r.flags;
        suffix = drop (length prefix) c.key;
        payload_pos = r.payload_pos;
        end = r.end;
        key_is = All-get_elem? (HasPrefix prefix) cells i c p.keys e;
        key_read = ap (leaf_key_at page body) ptr ∙ r.key_read;
        payload_read = r.payload_read;
      }

  pub leaf_cell_at-LeafPage :
      (i : ℕ) (c : LeafCell)
      → get_elem? cells i ≡ some c
      → leaf_cell_at page body i ≡ ok (c.key, c.payload)
  unfolding leaf_cell_at
  leaf_cell_at-LeafPage i c e =
      let r = reads-cell i c e in rw (r.key_read, p.prefix_read page, r.payload_read, r.key_is) refl

  -- What a search for a key comes to.
  unfoldable pub Hit : List ℕ → Result (Option (ℕ × ℕ)) → Type 0
  Hit key found =
      (i : ℕ) × (c : LeafCell) × (get_elem? cells i ≡ some c)
      × (c.key ≡ key)
      × (pos : ℕ) × (flags : ℕ) × (end : ℕ) × (found ≡ ok (some (pos, flags)))
      × (read_leaf_payload page body pos flags ≡ ok (c.payload, end))

  unfoldable pub Miss : List ℕ → Result (Option (ℕ × ℕ)) → Type 0
  Miss key found =
      (found ≡ ok none) × ((i : ℕ) (c : LeafCell) → get_elem? cells i ≡ some c → ¬ (c.key ≡ key))

  pub key_cmp :
      (krest suffix key k : List ℕ)
      → key ≡ prefix ++ krest
      → prefix ++ suffix ≡ k
      → lex suffix krest ≡ lex k key
  key_cmp krest suffix key k target key_is =
      sym (lex-shared prefix suffix krest)
      ∙ ap (λ (l : List ℕ). lex l (prefix ++ krest)) key_is
      ∙ ap (lex k) (sym target)

  -- Below `lo` the keys come before the key, and from `hi` on they come after it.
  unfoldable pub Before : List ℕ → ℕ → Type 0
  Before key lo = (i : ℕ) (c : LeafCell) → i < lo → get_elem? cells i ≡ some c → Below c.key key

  unfoldable pub After : List ℕ → ℕ → Type 0
  After key hi = (i : ℕ) (c : LeafCell) → hi ≤ i → get_elem? cells i ≡ some c → Below key c.key

  absent :
      (key : List ℕ) (lo hi : ℕ)
      → hi ≤ lo
      → Before key lo
      → After key hi
      → (i : ℕ) (c : LeafCell) → get_elem? cells i ≡ some c
      → ¬ (c.key ≡ key)
  unfolding Before After
  absent key lo hi crossed before after i c e same = elim (Bool-cases (ltb i lo)) [
    | inl t ↦
        let b = before i c (ground (arith, t)) e in
        Below-irrefl key (subst (λ (l : List ℕ). Below l key) same b)
    | inr f ↦ let b = after i c (ground (arith, f)) e in Below-irrefl key (subst (Below key) same b)
  ]

  Before-mid :
      (key : List ℕ) (mid : ℕ) (c : LeafCell)
      → Ordered none (leaf_keys cells)
      → get_elem? cells mid ≡ some c
      → Below c.key key
      → Before key (mid + 1)
  unfolding Before
  Before-mid key mid c o e b i d less ed = elim (Bool-cases (i == mid)) [
    | inl t ↦
        let same : mid ≡ i = ground (arith, t) in
        let one : c ≡ d = some-injective c d (sym e ∙ ap (get_elem? cells) same ∙ ed) in
        subst (λ (x : LeafCell). Below x.key key) one b
    | inr f ↦
        let under : i < mid = ground (arith, f) in
        Below-trans d.key c.key key
          (Ordered-increasing (leaf_keys cells) none i mid d.key c.key o
            (get_elem?-map (λ x. x.key) cells i d ed) (get_elem?-map (λ x. x.key) cells mid c e)
            under)
          b
  ]

  After-mid :
      (key : List ℕ) (mid : ℕ) (c : LeafCell)
      → Ordered none (leaf_keys cells)
      → get_elem? cells mid ≡ some c
      → Below key c.key
      → After key mid
  unfolding After
  After-mid key mid c o e b i d more ed = elim (Bool-cases (i == mid)) [
    | inl t ↦
        let same : mid ≡ i = ground (arith, t) in
        let one : c ≡ d = some-injective c d (sym e ∙ ap (get_elem? cells) same ∙ ed) in
        subst (λ (x : LeafCell). Below key x.key) one b
    | inr f ↦
        let over : mid < i = ground (arith, f) in
        Below-trans key c.key d.key b (
          Ordered-increasing (leaf_keys cells) none mid i c.key d.key o
            (get_elem?-map (λ x. x.key) cells mid c e) (get_elem?-map (λ x. x.key) cells i d ed)
            over)
  ]

  seek_step :
      (krest : List ℕ) (rounds lo hi flags pos : ℕ) (suffix : List ℕ) (o : Ordering)
      → ltb lo hi ≡ true
      → leaf_key_at page body (cell_ptr body (mid_of lo hi)) ≡ ok (flags, suffix, pos)
      → lex suffix krest ≡ o
      → seek_loop page body krest (suc rounds) lo hi ≡ elim o [
        | eq ↦ ok (some (pos, flags))
        | lt ↦ seek_loop page body krest rounds (mid_of lo hi + 1) hi
        | gt ↦ seek_loop page body krest rounds lo (mid_of lo hi)
      ]
  unfolding seek_loop
  seek_step krest rounds lo hi flags pos suffix o t k l = rw (seek_loop, t, k, ◌>>=◌) (rw l refl)

  seek_step_at :
      (krest key : List ℕ) (rounds lo hi : ℕ) (c : LeafCell) (r : CellRead c (mid_of lo hi))
      (o : Ordering)
      → key ≡ prefix ++ krest
      → ltb lo hi ≡ true
      → lex c.key key ≡ o
      → seek_loop page body krest (suc rounds) lo hi ≡ elim o [
        | eq ↦ ok (some (r.payload_pos, r.flags))
        | lt ↦ seek_loop page body krest rounds (mid_of lo hi + 1) hi
        | gt ↦ seek_loop page body krest rounds lo (mid_of lo hi)
      ]
  seek_step_at krest key rounds lo hi c r o target t l =
      seek_step krest rounds lo hi r.flags r.payload_pos r.suffix o t r.key_read
        (key_cmp krest r.suffix key c.key target r.key_is ∙ l)

  unfoldable pub Sought : List ℕ → Result (Option (ℕ × ℕ)) → Type 0
  Sought key found = Hit key found ⊎ Miss key found

  pub seek_loop-Sought :
      (krest key : List ℕ) (rounds lo hi : ℕ)
      → Ordered none (leaf_keys cells)
      → key ≡ prefix ++ krest
      → hi ≤ length cells
      → hi ≤ lo + rounds
      → Before key lo
      → After key hi
      → Sought key (seek_loop page body krest rounds lo hi)
  unfolding Sought Hit Miss seek_loop
  seek_loop-Sought krest key zero lo hi o target inside enough before after =
      inr (refl, absent key lo hi (omega arith) before after)
  seek_loop-Sought krest key (suc rounds) lo hi o target inside enough before after =
      elim (Bool-cases (ltb lo hi)) [
        | inr f ↦ inr (rw (seek_loop, f) refl, absent key lo hi (ground (arith, f)) before after)
        | inl t ↦
            let room : lo < hi = ground (arith, t) in
            let mid : ℕ = mid_of lo hi in
            let (c, e) = get_elem?-total cells mid (omega (arith, room)) in
            let r = reads-cell mid c e in
            elim (lex-cases c.key key) [
              | inl (b, l) ↦
                  let step : seek_loop page body krest (suc rounds) lo hi
                      ≡ seek_loop page body krest rounds (mid + 1) hi =
                    seek_step_at krest key rounds lo hi c r _ target t l in
                  subst (Sought key) (sym step) (
                    seek_loop-Sought krest key rounds (mid + 1) hi o target inside
                      (omega (arith, room)) (Before-mid key mid c o e b) after)
              | inr (inl (same, l)) ↦ inl (
                mid,
                c,
                e,
                same,
                r.payload_pos,
                r.flags,
                r.end,
                seek_step_at krest key rounds lo hi c r _ target t l,
                r.payload_read,
              )
              | inr (inr (b, l)) ↦
                  let step : seek_loop page body krest (suc rounds) lo hi
                      ≡ seek_loop page body krest rounds lo mid =
                    seek_step_at krest key rounds lo hi c r _ target t l in
                  subst (Sought key) (sym step) (
                    seek_loop-Sought krest key rounds lo mid o target (omega (arith, room))
                      (omega (arith, room)) before (After-mid key mid c o e b))
            ]
      ]
