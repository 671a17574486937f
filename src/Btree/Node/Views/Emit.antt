-- ===== src/Btree/Node/Views/Emit.antt =====
-- The pass over the keys with a prefix, on a leaf page: it is the pass over all the keys that calls
-- the function where a key has the prefix.
use arkeion.Common.{
  ℕ, zero, suc, ◌+◌, ◌-◌, ◌^◌, ◌<◌, ◌≡◌, refl, ap, sym, ◌∙◌, arith, Bool, true, false, inl, inr,
  Bool-cases, Option, none, some, List, [], ◌∷◌, ◌++◌, All, length, length-map, length-drop, drop,
  take, take-append-drop, length-take, leb, leb-false, leb→le,
}
use mathlib.Core.Path.{ap₂, subst}
use arkeion.Common.Cursor.{At, At-start, At-cons, At-get_elem?}
use arkeion.Common.Fields.{starts_with}
use arkeion.Common.LexOrder.{Below}
use arkeion.Error.{Result, err, ok, ◌>>=◌}
use arkeion.Btree.Node.{LeafCell, ncells_of}
use arkeion.Btree.Node.Parse.RoundTrip.{Ordered, leaf_keys, HasPrefix}
use arkeion.Btree.Node.LeafPage.{IsLeafCell, LeafPage}
use arkeion.Btree.Node.LeafPage.Shared.{encode_leaf-LeafPage}
use arkeion.Btree.Node.Write.{encode_leaf}
use arkeion.Btree.Node.Search.{key_lt}
use arkeion.Btree.Node.Search.Bisect.{leading-length}
use arkeion.Btree.Node.Search.Leaf.{reads-cell}
use arkeion.Btree.Node.Search.Find.{keys_below, bisect-keys_below}
use arkeion.Btree.Node.Append.Cells.{starts_with-append}
use arkeion.Btree.Node.Views.{emit_all, emit_while, leaf_for_each_prefix}
use arkeion.Btree.Node.Views.Matching.{
  matching, matching-none, matching-leading, none_above, leading-high, leading-Ordered,
}
use arkeion.Btree.Node.Views.StartsWith.{
  starts_with-shared, starts_with-shorter, starts_with-longer,
}

bind-cong {ℓ κ} :
    {T : Type ℓ} {U : Type κ} (r : Result T) (g g' : T → Result U)
    → ((t : T) → g t ≡ g' t)
    → (r >>= g) ≡ (r >>= g')
bind-cong (err e) g g' h = refl
bind-cong (ok t) g g' h = h t

bind_assoc {ℓ κ ι} :
    {T : Type ℓ} {U : Type κ} {V : Type ι} (r : Result T) (g : T → Result U) (k : U → Result V)
    → ((r >>= g) >>= k) ≡ (r >>= λ t. g t >>= k)
bind_assoc (err e) g k = refl
bind_assoc (ok t) g k = refl

bind-ok {ℓ} : {T : Type ℓ} (r : Result T) → (r >>= λ t. ok t) ≡ r
bind-ok (err e) = refl
bind-ok (ok t) = refl

-- What the function has made of its state.
abbrev pub state_of {ℓ} : {S : Type ℓ} → S × Bool → Result S
state_of (s, more) = ok s

drop-leaf_keys :
    (n : ℕ) (cells : List LeafCell) → leaf_keys (drop n cells) ≡ drop n (leaf_keys cells)
drop-leaf_keys zero cells = refl
drop-leaf_keys (suc n) [] = refl
drop-leaf_keys (suc n) (c ∷ cells) = drop-leaf_keys n cells

module _ {ℓ} {S : Type ℓ} (f : S → List ℕ → Result S) (page : ℕ) (body : List ℕ)
    (cells : List LeafCell) (lprefix prefix : List ℕ) (h : All IsLeafCell cells)
    (p : LeafPage body cells lprefix) where
  emit_all-At :
      (rest : List LeafCell) (i : ℕ) (s : S)
      → At cells i rest
      → All (λ k. starts_with k prefix ≡ true) (leaf_keys rest)
      → emit_all f page body lprefix (length rest) i s ≡ matching f prefix (leaf_keys rest) s
  unfolding emit_all
  emit_all-At [] i s at a = refl
  emit_all-At (c ∷ rest) i s at (t, a) =
      let r = reads-cell page body cells lprefix h p i c (At-get_elem? cells c rest i at) in
      rw (emit_all, r.key_read, ◌>>=◌, r.key_is, matching, t)
        (bind-cong (f s c.key) _ _ λ s. emit_all-At rest (i + 1) s (At-cons cells c rest i at) a)

  emit_while-At :
      (srest : List ℕ) (rest : List LeafCell) (i : ℕ) (s : S) (last : Option (List ℕ))
      → prefix ≡ lprefix ++ srest
      → At cells i rest
      → Ordered last (leaf_keys rest)
      → All (λ k. ¬ (Below k prefix)) (leaf_keys rest)
      → (emit_while f page body lprefix srest (length rest) i s >>= state_of)
        ≡ matching f prefix (leaf_keys rest) s
  unfolding emit_while
  emit_while-At srest [] i s last target at o high = refl
  emit_while-At srest (c ∷ rest) i s last target at (full, next, o) (above, high) =
      let r = reads-cell page body cells lprefix h p i c (At-get_elem? cells c rest i at) in
      let same : starts_with r.suffix srest ≡ starts_with c.key prefix =
        sym (starts_with-shared lprefix r.suffix srest)
        ∙ ap₂ (λ (a b : List ℕ). starts_with a b) r.key_is (sym target) in
      elim (Bool-cases (starts_with c.key prefix)) [
        | inr n ↦
            rw (emit_while, r.key_read, ◌>>=◌, same, n, matching)
              (sym (
                matching-none f prefix (leaf_keys rest) s
                  (none_above f prefix c.key (leaf_keys rest) o above n)))
        | inl t ↦
            rw (emit_while, r.key_read, ◌>>=◌, same, t, matching, r.key_is)
              (bind_assoc (f s c.key) _ _
                ∙ bind-cong (f s c.key) _ _ λ s.
                  emit_while-At srest rest (i + 1) s (some c.key) target (At-cons cells c rest i at)
                    o high)
      ]

  -- The keys of a page whose common prefix decides.
  decided :
      (ds : List LeafCell) (b : Bool)
      → All (HasPrefix lprefix) ds
      → ((s : List ℕ) → starts_with (lprefix ++ s) prefix ≡ b)
      → All (λ k. starts_with k prefix ≡ b) (leaf_keys ds)
  decided [] b k d = tt
  decided (c ∷ ds) b (k, ks) d = (
    subst (λ (l : List ℕ). starts_with l prefix ≡ b) k (d (drop (length lprefix) c.key)),
    decided ds b ks d,
  )

  from_lower_bound :
      (srest : List ℕ) (s : S)
      → Ordered none (leaf_keys cells)
      → prefix ≡ lprefix ++ srest
      → (emit_while f page body lprefix srest
            (ncells_of body - keys_below cells prefix)
            (keys_below cells prefix)
            s
          >>= state_of)
        ≡ matching f prefix (leaf_keys cells) s
  from_lower_bound srest s o target =
      let lo : ℕ = keys_below cells prefix in
      let keys : List (List ℕ) = leaf_keys cells in
      let rest : List LeafCell = drop lo cells in
      let bound = leading-length (λ k. key_lt k prefix) keys in
      let count = length-map (λ (c : LeafCell). c.key) cells in
      let ncells = p.ncells in
      let left : ncells_of body - lo ≡ length rest = omega (arith, ncells, length-drop lo cells) in
      let at : At cells lo rest = record {
        before = take lo cells;
        splits = sym (take-append-drop lo cells);
        length_before = omega (arith, length-take lo cells, bound, count);
      } in
      let same : leaf_keys rest ≡ drop lo keys = drop-leaf_keys lo cells in
      let (last, later) = leading-Ordered f prefix none keys o in
      ap (λ (n : ℕ). emit_while f page body lprefix srest n lo s >>= state_of) left
      ∙ emit_while-At srest rest lo s last target at (subst (Ordered last) (sym same) later) (
          subst (λ (ks : List (List ℕ)). All (λ k. ¬ (Below k prefix)) ks) (sym same)
            (leading-high f prefix none keys o))
      ∙ ap (λ (ks : List (List ℕ)). matching f prefix ks s) same
      ∙ sym (matching-leading f prefix keys s)

  pub leaf_for_each_prefix-LeafPage :
      (s : S)
      → Ordered none (leaf_keys cells)
      → (leaf_for_each_prefix page body prefix f s >>= state_of)
        ≡ matching f prefix (leaf_keys cells) s
  unfolding leaf_for_each_prefix
  leaf_for_each_prefix-LeafPage s o = elim (Bool-cases (leb (length prefix) (length lprefix))) [
    | inl short ↦
        let fits = leb→le (length prefix) (length lprefix) short in
        elim (Bool-cases (starts_with lprefix prefix)) [
          | inl t ↦
              let hits =
                decided cells true p.keys λ l. starts_with-shorter lprefix prefix l fits ∙ t in
              rw (leaf_for_each_prefix, p.is_leaf, p.prefix_read page, ◌>>=◌, short, t)
                (bind_assoc (emit_all f page body lprefix (ncells_of body) 0 s) _ _
                  ∙ bind-ok (emit_all f page body lprefix (ncells_of body) 0 s)
                  ∙ ap (λ (n : ℕ). emit_all f page body lprefix n 0 s) p.ncells
                  ∙ emit_all-At cells 0 s (At-start cells) hits)
          | inr n ↦
              let misses =
                decided cells false p.keys λ l. starts_with-shorter lprefix prefix l fits ∙ n in
              rw (leaf_for_each_prefix, p.is_leaf, p.prefix_read page, ◌>>=◌, short, n)
                (sym (matching-none f prefix (leaf_keys cells) s misses))
        ]
    | inr long ↦
        let over = leb-false (length prefix) (length lprefix) long in
        elim (Bool-cases (starts_with prefix lprefix)) [
          | inr n ↦
              let misses =
                decided cells false p.keys
                  λ l. starts_with-longer lprefix prefix l (omega (arith, over)) n in
              rw (leaf_for_each_prefix, p.is_leaf, p.prefix_read page, ◌>>=◌, long, n)
                (sym (matching-none f prefix (leaf_keys cells) s misses))
          | inl t ↦
              let srest : List ℕ = drop (length lprefix) prefix in
              let target : prefix ≡ lprefix ++ srest = sym (starts_with-append prefix lprefix t) in
              let found = bisect-keys_below page body cells lprefix h o p srest prefix target in
              rw (leaf_for_each_prefix, p.is_leaf, p.prefix_read page, ◌>>=◌, long, t, found)
                (from_lower_bound srest s o target)
        ]
  ]

-- On the page of a leaf with increasing keys, compressed or not, the pass over the keys with a
-- prefix makes of its state, failures included, what calling the function on each key that has the
-- prefix makes of it, in order.
pub leaf_for_each_prefix-encode_leaf {ℓ} :
    {S : Type ℓ} (f : S → List ℕ → Result S) (page : ℕ) (cells : List LeafCell)
    (body written prefix : List ℕ) (s : S)
    → All IsLeafCell cells
    → Ordered none (leaf_keys cells)
    → length body < 2 ^ 16
    → encode_leaf cells body ≡ some written
    → (leaf_for_each_prefix page written prefix f s >>= state_of)
      ≡ matching f prefix (leaf_keys cells) s
leaf_for_each_prefix-encode_leaf f page cells body written prefix s h o small e =
    let (lprefix, p) = encode_leaf-LeafPage cells body written h o small e in
    leaf_for_each_prefix-LeafPage f page written cells lprefix prefix h p s o
