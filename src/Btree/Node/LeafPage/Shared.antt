-- ===== src/Btree/Node/LeafPage/Shared.antt =====
-- The common prefix of the first and the last key of a leaf is one of every key between them, so
-- `encode_leaf` writes a leaf page in either form.
use arkeion.Common.{
  ℕ, suc, ◌^◌, ◌<◌, ◌≡◌, refl, ap, sym, ◌∙◌, arith, inl, inr, Bool-cases, none, some, List, [], ◌∷◌,
  ◌++◌, All, length, take, drop, leb, le→leb, lt→leb-false, not, ◌&&◌, ◌==◌,
}
use mathlib.Core.Path.{ap₂}
use arkeion.Common.LexOrder.{Below, Below-irrefl, Below-trans}
use arkeion.Btree.Node.{LeafCell, common_prefix, last_key, keys_lcp, leaf_min_prefix}
use arkeion.Btree.Node.Write.{encode_leaf, encode_compressed, prefix_len, first_key, is_vector}
use arkeion.Btree.Node.Parse.RoundTrip.{Ordered, leaf_keys, HasPrefix, follows-Below}
use arkeion.Btree.Node.LeafPage.{IsLeafCell, LeafPage}
use arkeion.Btree.Node.LeafPage.Encode.{encode_plain-LeafPage, encode_compressed-LeafPage}

-- A string between two others has what is common to these.
common_prefix-between :
    (a c b : List ℕ)
    → ¬ (Below b a)
    → ¬ (Below c b)
    → take (common_prefix a c) a ++ drop (length (take (common_prefix a c) a)) b ≡ b
common_prefix-between [] c b low high = refl
common_prefix-between (x ∷ xs) [] b low high = refl
common_prefix-between (x ∷ xs) (y ∷ ys) [] low high = absurd (low tt)
common_prefix-between (x ∷ xs) (y ∷ ys) (z ∷ zs) low high = elim (Bool-cases (x == y)) [
  | inl t ↦
      let e : x ≡ y = ground (arith, t) in
      let above : ¬ (z < x) = λ h. low (inl h) in
      let below : ¬ (y < z) = λ h. high (inl h) in
      let same : x ≡ z = omega (arith, e, above, below) in
      let rest =
        common_prefix-between xs ys zs (λ h. low (inr (sym same, h)))
          (λ h. high (inr (sym e ∙ same, h))) in
      rw t (ap₂ (λ (w : ℕ) (ws : List ℕ). w ∷ ws) same rest)
  | inr f ↦ rw f refl
]

above_first :
    (k : List ℕ) (cells : List LeafCell)
    → Ordered (some k) (leaf_keys cells)
    → All (λ c. ¬ (Below c.key k)) cells
above_first k [] o = tt
above_first k (c ∷ cells) (full, next, o) =
    let here = follows-Below k c.key next in
    (λ h. Below-irrefl k (Below-trans k c.key k here h), raise cells (above_first c.key cells o))
  where
    raise :
        (ds : List LeafCell) → All (λ d. ¬ (Below d.key c.key)) ds → All (λ d. ¬ (Below d.key k)) ds
    raise [] h = tt
    raise (d ∷ ds) (h, hs) =
        (λ b. h (Below-trans d.key k c.key b (follows-Below k c.key next)), raise ds hs)

up_to_last :
    (c : LeafCell) (cells : List LeafCell)
    → Ordered (some c.key) (leaf_keys cells)
    → All (λ d. ¬ (Below (last_key c cells) d.key)) (c ∷ cells)
up_to_last c [] o = (Below-irrefl c.key, tt)
up_to_last c (d ∷ cells) (full, next, o) =
    let more = up_to_last d cells o in
    (λ h. more.0 (Below-trans _ c.key d.key h (follows-Below c.key d.key next)), more)

HasPrefix-between :
    (a c : List ℕ) (cells : List LeafCell)
    → All (λ d. ¬ (Below d.key a)) cells
    → All (λ d. ¬ (Below c d.key)) cells
    → All (HasPrefix (take (common_prefix a c) a)) cells
HasPrefix-between a c [] low high = tt
HasPrefix-between a c (d ∷ cells) (l, low) (h, high) =
    (common_prefix-between a c d.key l h, HasPrefix-between a c cells low high)

length-common_prefix : (a c : List ℕ) → length (take (common_prefix a c) a) ≡ common_prefix a c
length-common_prefix [] c = refl
length-common_prefix (x ∷ xs) [] = refl
length-common_prefix (x ∷ xs) (y ∷ ys) = elim (Bool-cases (x == y)) [
  | inl t ↦ rw t (ap suc (length-common_prefix xs ys))
  | inr f ↦ rw f refl
]

prefix_len-short : (cells : List LeafCell) → length cells < 2 → prefix_len cells ≡ 0
unfolding prefix_len
prefix_len-short cells h = rw (lt→leb-false 2 (length cells) h) refl

prefix_len-two :
    (c d : LeafCell) (cells : List LeafCell)
    → prefix_len (c ∷ d ∷ cells) ≡ common_prefix c.key (last_key c (d ∷ cells))
unfolding prefix_len keys_lcp
prefix_len-two c d cells = rw (le→leb 2 (length (c ∷ d ∷ cells)) (omega arith)) refl

-- A page that a leaf's cells fit in.
pub encode_leaf-LeafPage :
    (cells : List LeafCell) (body page : List ℕ)
    → All IsLeafCell cells
    → Ordered none (leaf_keys cells)
    → length body < 2 ^ 16
    → encode_leaf cells body ≡ some page
    → (prefix : List ℕ) × LeafPage page cells prefix
unfolding encode_leaf first_key
encode_leaf-LeafPage [] body page h o small e =
    ([], encode_plain-LeafPage [] body page h small (rw (prefix_len-short [] (omega arith)) at e))
encode_leaf-LeafPage (c ∷ []) body page h o small e = (
  [],
  encode_plain-LeafPage (c ∷ []) body page h small
      (rw (prefix_len-short (c ∷ []) (omega arith)) at e),
)
encode_leaf-LeafPage (c ∷ d ∷ cells) body page h (full, next, o) small e =
    let all : List LeafCell = c ∷ d ∷ cells in
    let last : List ℕ = last_key c (d ∷ cells) in
    let plen : ℕ = prefix_len all in
    let same : plen ≡ common_prefix c.key last = prefix_len-two c d cells in
    elim (Bool-cases (leb leaf_min_prefix plen && not (is_vector all))) [
      | inl t ↦
          let low : All (λ (x : LeafCell). ¬ (Below x.key c.key)) all =
            (Below-irrefl c.key, above_first c.key (d ∷ cells) o) in
          let high = up_to_last c (d ∷ cells) o in
          let keys = HasPrefix-between c.key last all low high in
          let made : encode_compressed plen (take plen c.key) all body ≡ some page = rw t at e in
          (
            take (common_prefix c.key last) c.key,
            encode_compressed-LeafPage (take (common_prefix c.key last) c.key) all body page h keys
                small (rw (length-common_prefix c.key last) (rw same at made)),
          )
      | inr f ↦ ([], encode_plain-LeafPage all body page h small (rw f at e))
    ]
