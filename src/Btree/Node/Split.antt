-- ===== src/Btree/Node/Split.antt =====
-- Where a node is split: behind the least number of cells that make up half of its bytes, with a
-- cell left on each side.
use arkeion.Common.{
  ℕ, zero, suc, ◌+◌, ◌-◌, ◌*◌, ◌≤◌, ◌<◌, ◌≡◌, ◌⊎◌, refl, ap, ◌∙◌, arith, min, inl, inr, Bool-cases,
  List, [], ◌∷◌, length, take, leb, ltb,
}
use arkeion.Btree.Node.{split_loop, sum_of, split_point}

-- The cells that the loop takes from `rest` on.
record Taken {ℓ} {A : Type ℓ} (size : A → ℕ) (total count i acc : ℕ) (rest : List A) : Type ℓ where
  taken : ℕ
  within : taken ≤ length rest
  result : split_loop size total count i acc rest ≡ min (i + taken) (count - 1)
  reaches : (taken ≡ length rest) ⊎ (total ≤ (acc + sum_of size (take taken rest)) * 2)
  least : (taken ≤ 1) ⊎ ((acc + sum_of size (take (taken - 1) rest)) * 2 < total)
  starts : (1 ≤ length rest) → 1 ≤ taken

least_more {ℓ} :
    {A : Type ℓ} (size : A → ℕ) (c : A) (cs : List A) (n total acc : ℕ)
    → 1 ≤ n
    → (acc + size c) * 2 < total
    → (n ≤ 1) ⊎ ((acc + size c + sum_of size (take (n - 1) cs)) * 2 < total)
    → (acc + sum_of size (take (suc n - 1) (c ∷ cs))) * 2 < total
least_more size c cs n total acc h less more =
    let whole : sum_of size (take (suc n - 1) (c ∷ cs)) ≡ size c + sum_of size (take (n - 1) cs) =
      sum_take (suc n - 1) (omega arith)
      ∙ ap (λ (k : ℕ). size c + sum_of size (take k cs)) (omega arith) in
    elim more [
      | inr m ↦ omega (arith, whole, m)
      | inl one ↦
          let least : n - 1 ≡ 0 = omega (arith, one) in
          let nothing : sum_of size (take (n - 1) cs) ≡ 0 =
            ap (λ (k : ℕ). sum_of size (take k cs)) least in
          omega (arith, whole, nothing, less)
    ]
  where
    sum_take :
        (k : ℕ) → 1 ≤ k → sum_of size (take k (c ∷ cs)) ≡ size c + sum_of size (take (k - 1) cs)
    sum_take zero h = absurd (omega arith)
    sum_take (suc k) h = ap (λ (j : ℕ). size c + sum_of size (take j cs)) (omega arith)

split_loop-Taken {ℓ} :
    {A : Type ℓ} (rest : List A) (acc i count total : ℕ) (size : A → ℕ)
    → i + length rest ≡ count
    → Taken size total count i acc rest
unfolding split_loop
split_loop-Taken [] acc i count total size e = record {
  taken = 0;
  within = omega arith;
  result = omega arith;
  reaches = inl refl;
  least = inl (omega arith);
  starts = λ h. absurd (omega arith);
}
split_loop-Taken (c ∷ cs) acc i count total size e =
    elim (Bool-cases (ltb ((acc + size c) * 2) total)) [
      | inr f ↦ record {
        taken = 1;
        within = omega arith;
        result = rw (split_loop, f) refl;
        reaches = inr (ground (arith, f));
        least = inl (omega arith);
        starts = λ h. omega arith;
      }
      | inl t ↦
          let more = split_loop-Taken cs (acc + size c) (i + 1) count total size (omega arith) in
          let less : (acc + size c) * 2 < total = ground (arith, t) in
          record {
            taken = suc more.taken;
            within = omega (arith, more.within);
            result = rw (split_loop, t) (more.result ∙ omega arith);
            reaches = elim more.reaches [ inl e ↦ inl (ap suc e) | inr h ↦ inr (omega (arith, h)) ];
            least = elim (Bool-cases (leb more.taken 0)) [
              | inl z ↦ inl (ground (arith, z))
              | inr z ↦
                  let some_taken : 1 ≤ more.taken = ground (arith, z) in
                  inr (least_more size c cs more.taken total acc some_taken less more.least)
            ];
            starts = λ h. omega arith;
          }
    ]

take-length {ℓ} : {A : Type ℓ} (xs : List A) → take (length xs) xs ≡ xs
take-length [] = refl
take-length (x ∷ xs) = ap (λ l. x ∷ l) (take-length xs)

-- The split is behind the `taken` cells that are the least to make up half, or in front of the last.
unfoldable pub Half {ℓ} : {A : Type ℓ} → (A → ℕ) → List A → Type 0
Half size cells =
    (taken : ℕ) × (1 ≤ taken)
    × (taken ≤ length cells)
    × (split_point cells size ≡ min taken (length cells - 1))
    × (sum_of size cells ≤ sum_of size (take taken cells) * 2)
    × ((taken ≤ 1) ⊎ (sum_of size (take (taken - 1) cells) * 2 < sum_of size cells))

-- A node of one or more cells is split behind the least number of its first cells that make up
-- half of the bytes, or in front of its last cell if this is less.
pub split_point-Half {ℓ} :
    {A : Type ℓ} (size : A → ℕ) (cells : List A) → 1 ≤ length cells → Half size cells
unfolding Half split_point
split_point-Half size cells h =
    let t = split_loop-Taken cells 0 0 (length cells) (sum_of size cells) size (omega arith) in
    (
      t.taken,
      t.starts h,
      t.within,
      t.result ∙ ap (λ (k : ℕ). min k (length cells - 1)) (omega arith),
      elim t.reaches [
        | inl e ↦
            let all =
              ap (λ (k : ℕ). sum_of size (take k cells)) e ∙ ap (sum_of size) (take-length cells) in
            omega (arith, all)
        | inr r ↦ omega (arith, r)
      ],
      elim t.least [ inl e ↦ inl e | inr r ↦ inr (omega (arith, r)) ],
    )
