-- ===== src/Btree/Node/Search/Find.antt =====
-- The searches of a leaf, on the page that `encode_leaf` wrote, against the linear ones.
use Prim.Native.Nat.Ordering.{lt}
use Prim.Native.Nat.{Ordering}
use arkeion.Common.{
  ℕ, suc, ◌^◌, ◌<◌, ◌≡◌, refl, ap, sym, ◌∙◌, arith, Bool, true, false, inl, inr, Option, none, some,
  List, [], ◌∷◌, ◌++◌, All, All-get_elem?, length, length-map, drop, get_elem?, get_elem?-map,
  get_elem?-total, get_elem?-lt_length, ltb,
}
use mathlib.Core.Path.{subst}
use arkeion.Common.LexOrder.{Below, Below-irrefl, lex-Below, lex-Above}
use arkeion.Error.{ok, ◌>>=◌}
use arkeion.Btree.Node.{ncells_of, Payload, LeafCell, cmp_prefix, below, above, within, PrefixCmp}
use arkeion.Btree.Node.Write.{encode_leaf}
use arkeion.Btree.Node.Parse.{leaf_cell_at}
use arkeion.Btree.Node.Parse.RoundTrip.{Ordered, leaf_keys, HasPrefix}
use arkeion.Btree.Node.LeafPage.{IsLeafCell, LeafPage}
use arkeion.Btree.Node.LeafPage.Shared.{encode_leaf-LeafPage}
use arkeion.Btree.Node.Search.{
  key_lt, bisect, leaf_test, leaf_lower_bound, seek_loop, leaf_seek, leaf_find, leaf_contains,
}
use arkeion.Btree.Node.Search.Bisect.{
  bisect-partition, leading, leading-length, leading-pass, below_key-IsInitial,
}
use arkeion.Btree.Node.Search.Prefix.{Compares, cmp_prefix-Compares}
use arkeion.Btree.Node.Search.Lookup.{lookup, lookup-hit, lookup-miss}
use arkeion.Btree.Node.Search.Leaf.{
  reads-cell, Hit, Miss, Sought, key_cmp, Before, After, seek_loop-Sought, leaf_cell_at-LeafPage,
}

abbrev pub is_some : Option Payload → Bool
is_some none = false
is_some (some payload) = true

-- How many keys come before one.
abbrev pub keys_below : List LeafCell → List ℕ → ℕ
keys_below cells key = leading (λ k. key_lt k key) (leaf_keys cells)

module _ (prefix key : List ℕ) where
  keys_below-none :
      (cells : List LeafCell)
      → All (HasPrefix prefix) cells
      → ((s : List ℕ) → Below key (prefix ++ s))
      → keys_below cells key ≡ 0
  keys_below-none [] h k = refl
  keys_below-none (c ∷ cells) (h, hs) k =
      let over = subst (Below key) h (k (drop (length prefix) c.key)) in
      rw (key_lt, lex-Above c.key key over) refl

  keys_below-all :
      (cells : List LeafCell)
      → All (HasPrefix prefix) cells
      → ((s : List ℕ) → Below (prefix ++ s) key)
      → keys_below cells key ≡ length cells
  keys_below-all [] h k = refl
  keys_below-all (c ∷ cells) (h, hs) k =
      let under = subst (λ (l : List ℕ). Below l key) h (k (drop (length prefix) c.key)) in
      rw (key_lt, lex-Below c.key key under) (ap suc (keys_below-all cells hs k))

abbrev is_lt : Ordering → Bool
is_lt lt = true
is_lt _ = false

module _ (page : ℕ) (body : List ℕ) (cells : List LeafCell) (prefix : List ℕ)
    (h : All IsLeafCell cells) (o : Ordered none (leaf_keys cells))
    (p : LeafPage body cells prefix) where
  -- A key on one side of all the keys of the leaf is not among them.
  outside :
      (key : List ℕ)
      → ((s : List ℕ) → ¬ (prefix ++ s ≡ key))
      → (i : ℕ) (c : LeafCell) → get_elem? cells i ≡ some c
      → ¬ (c.key ≡ key)
  outside key apart i c e same =
      apart (drop (length prefix) c.key)
        (All-get_elem? (HasPrefix prefix) cells i c p.keys e ∙ same)

  leaf_seek-Sought :
      (key : List ℕ) → Sought page body cells prefix h p key (leaf_seek page body key)
  unfolding Sought Miss leaf_seek Before After
  leaf_seek-Sought key = go (cmp_prefix prefix key) refl (cmp_prefix-Compares prefix key)
    where
      go :
          (o : PrefixCmp)
          → cmp_prefix prefix key ≡ o
          → Compares prefix key o
          → Sought page body cells prefix h p key (leaf_seek page body key)
      go below e k = inr (
        rw (leaf_seek, p.is_leaf, p.prefix_read page, ◌>>=◌, e) refl,
        outside key λ s same. Below-irrefl key (subst (Below key) same (k s)),
      )
      go above e k = inr (
        rw (leaf_seek, p.is_leaf, p.prefix_read page, ◌>>=◌, e) refl,
        outside key λ s same. Below-irrefl key (subst (λ (l : List ℕ). Below l key) same (k s)),
      )
      go (within rest) e k =
          let step : leaf_seek page body key
              ≡ seek_loop page body rest (length cells) 0 (length cells) =
            rw (leaf_seek, p.is_leaf, p.prefix_read page, ◌>>=◌, e)
              (ap (λ (n : ℕ). seek_loop page body rest n 0 n) p.ncells) in
          subst (Sought page body cells prefix h p key) (sym step) (
            seek_loop-Sought page body cells prefix h p rest key (length cells) 0 (length cells) o k
              (omega arith) (omega arith) (λ i c less e'. absurd (omega arith))
              λ i c more e'. absurd (omega (arith, get_elem?-lt_length cells i c e')))

  pub leaf_find-LeafPage : (key : List ℕ) → leaf_find page body key ≡ ok (lookup cells key)
  unfolding Sought Hit Miss leaf_find
  leaf_find-LeafPage key = elim (leaf_seek-Sought key) [
    | inl (i, c, e, same, pos, flags, end, found, payload_read) ↦
        rw (leaf_find, found, ◌>>=◌, payload_read)
          (ap ok (sym (lookup-hit cells none i c o e) ∙ ap (lookup cells) same))
    | inr (found, absent) ↦ rw (leaf_find, found) (ap ok (sym (lookup-miss cells key absent)))
  ]

  pub leaf_contains-LeafPage :
      (key : List ℕ) → leaf_contains page body key ≡ ok (is_some (lookup cells key))
  unfolding Sought Hit Miss leaf_contains
  leaf_contains-LeafPage key = elim (leaf_seek-Sought key) [
    | inl (i, c, e, same, pos, flags, end, found, payload_read) ↦
        rw (leaf_contains, found)
          (ap (λ (x : Option Payload). ok (is_some x))
            (sym (lookup-hit cells none i c o e) ∙ ap (lookup cells) same))
    | inr (found, absent) ↦
        rw (leaf_contains, found)
          (ap (λ (x : Option Payload). ok (is_some x)) (sym (lookup-miss cells key absent)))
  ]

  -- The binary search by what is left of a key behind the prefix.
  pub bisect-keys_below :
      (rest key : List ℕ)
      → key ≡ prefix ++ rest
      → bisect (leaf_test page body rest) (ncells_of body) 0 (ncells_of body)
        ≡ ok (keys_below cells key)
  unfolding leaf_test
  bisect-keys_below rest key k =
      let tests : (i : ℕ)
          → i < length cells
          → leaf_test page body rest i ≡ ok (ltb i (keys_below cells key)) =
        λ i inside.
          let (c, there) = get_elem?-total cells i inside in
          let r = reads-cell page body cells prefix h p i c there in
          let passes =
            leading-pass (λ l. key_lt l key) (leaf_keys cells) none i c.key
              (below_key-IsInitial key) o (get_elem?-map (λ d. d.key) cells i c there) in
          let same = key_cmp page body cells prefix h p rest r.suffix key c.key k r.key_is in
          rw (leaf_test, r.key_read, ◌>>=◌) (ap ok (ap is_lt same ∙ passes)) in
      let found =
        bisect-partition (leaf_test page body rest) (length cells) 0 (length cells)
          (keys_below cells key) tests (omega arith)
          (omega (
            arith,
            leading-length (λ l. key_lt l key) (leaf_keys cells),
            length-map (λ (d : LeafCell). d.key) cells,
          ))
          (omega arith) in
      ap (λ (n : ℕ). bisect (leaf_test page body rest) n 0 n) p.ncells ∙ found

  pub leaf_lower_bound-LeafPage :
      (key : List ℕ) → leaf_lower_bound page body key ≡ ok (keys_below cells key)
  unfolding leaf_lower_bound leaf_test
  leaf_lower_bound-LeafPage key = go (cmp_prefix prefix key) refl (cmp_prefix-Compares prefix key)
    where
      go :
          (o : PrefixCmp)
          → cmp_prefix prefix key ≡ o
          → Compares prefix key o
          → leaf_lower_bound page body key ≡ ok (keys_below cells key)
      go below e k =
          rw (leaf_lower_bound, p.prefix_read page, ◌>>=◌, e)
            (ap ok (sym (keys_below-none prefix key cells p.keys k)))
      go above e k =
          rw (leaf_lower_bound, p.prefix_read page, ◌>>=◌, e)
            (ap ok (p.ncells ∙ sym (keys_below-all prefix key cells p.keys k)))
      go (within rest) e k =
          rw (leaf_lower_bound, p.prefix_read page, ◌>>=◌, e) (bisect-keys_below rest key k)

module _ (page : ℕ) (cells : List LeafCell) (body written : List ℕ) (key : List ℕ)
    (h : All IsLeafCell cells) (o : Ordered none (leaf_keys cells)) (small : length body < 2 ^ 16)
    (e : encode_leaf cells body ≡ some written) where
  -- On the page of a leaf with increasing keys, compressed or not, the binary search for a key
  -- finds what a search of the cells one after the other finds, and none where no cell has the
  -- key.
  pub leaf_find-encode_leaf : leaf_find page written key ≡ ok (lookup cells key)
  leaf_find-encode_leaf =
      let (prefix, p) = encode_leaf-LeafPage cells body written h o small e in
      leaf_find-LeafPage page written cells prefix h o p key

  -- On the page of a leaf with increasing keys, a key is contained exactly when a search of the
  -- cells one after the other finds a payload for it.
  pub leaf_contains-encode_leaf : leaf_contains page written key ≡ ok (is_some (lookup cells key))
  leaf_contains-encode_leaf =
      let (prefix, p) = encode_leaf-LeafPage cells body written h o small e in
      leaf_contains-LeafPage page written cells prefix h o p key

  -- On the page of a leaf with increasing keys, the lower bound of a key is the count of the keys
  -- before it.
  pub leaf_lower_bound-encode_leaf : leaf_lower_bound page written key ≡ ok (keys_below cells key)
  leaf_lower_bound-encode_leaf =
      let (prefix, p) = encode_leaf-LeafPage cells body written h o small e in
      leaf_lower_bound-LeafPage page written cells prefix h o p key

-- The cell of an index is read through its pointer, with its whole key and its payload, off the
-- page of a leaf with increasing keys.
pub leaf_cell_at-encode_leaf :
    (page : ℕ) (cells : List LeafCell) (body written : List ℕ) (i : ℕ) (c : LeafCell)
    → All IsLeafCell cells
    → Ordered none (leaf_keys cells)
    → length body < 2 ^ 16
    → encode_leaf cells body ≡ some written
    → get_elem? cells i ≡ some c
    → leaf_cell_at page written i ≡ ok (c.key, c.payload)
leaf_cell_at-encode_leaf page cells body written i c h o small e there =
    let (prefix, p) = encode_leaf-LeafPage cells body written h o small e in
    leaf_cell_at-LeafPage page written cells prefix h p i c there
