-- ===== src/Tx/Store/Numbers.antt =====
-- The numbers of a store: the dirty pages and the freed ones are apart, and all behind the durable ones.
use arkeion.Common.{
  ℕ, ◌+◌, ◌≤◌, ◌<◌, ◌≡◌, ◌≢◌, refl, sym, ◌∙◌, ap, arith, true, false, Option, none, some, List, [],
  ◌∷◌, All, inl, inr, Bool-cases, Option-cases, ◌==◌,
}
use arkeion.Tx.Store.{TxStore, put, set_page, next_id}

-- The freed numbers differ from each other, and none of them is dirty.
abbrev pub Freed : (ℕ → Option (List ℕ)) → ℕ → ℕ → List ℕ → Type 0
Freed dirty base end [] = Unit
Freed dirty base end (id ∷ freed) =
    (base ≤ id)
    × (id < end)
    × (dirty id ≡ none)
    × All (λ other. other ≢ id) freed
    × Freed dirty base end freed

pub record IsStore (s : TxStore) : Type 0 where
  pub dirty_from : (id : ℕ) (page : List ℕ) → s.dirty id ≡ some page → s.alloc_base ≤ id
  pub dirty_below : (id : ℕ) (page : List ℕ) → s.dirty id ≡ some page → id < s.alloc_next
  pub base_below : s.alloc_base ≤ s.alloc_next
  pub apart : Freed s.dirty s.alloc_base s.alloc_next s.freed

-- The store keeps its pager and where its own pages begin.
pub record Extends (s t : TxStore) : Type 0 where
  pub same_base : t.alloc_base ≡ s.alloc_base
  pub same_pager : t.read_page ≡ s.read_page

pub put_same :
    (dirty : ℕ → Option (List ℕ)) (id : ℕ) (page : Option (List ℕ)) → put dirty id page id ≡ page
put_same dirty id page = let same : (id == id) ≡ true = ground arith in rw (put, same) refl

pub put_other :
    (dirty : ℕ → Option (List ℕ)) (id other : ℕ) (page : Option (List ℕ))
    → other ≢ id
    → put dirty id page other ≡ dirty other
put_other dirty id other page h =
    let differs : (other == id) ≡ false = ground (arith, h) in rw (put, differs) refl

pub Freed-put :
    (dirty : ℕ → Option (List ℕ)) (base end id : ℕ) (page : Option (List ℕ)) (freed : List ℕ)
    → All (λ other. other ≢ id) freed
    → Freed dirty base end freed
    → Freed (put dirty id page) base end freed
Freed-put dirty base end id page [] h f = tt
Freed-put dirty base end id page (other ∷ freed) (d, h) (from, below, clean, single, f) = (
  from,
  below,
  put_other dirty id other page d ∙ clean,
  single,
  Freed-put dirty base end id page freed h f,
)

Freed-grow :
    (dirty : ℕ → Option (List ℕ)) (base end : ℕ) (freed : List ℕ)
    → Freed dirty base end freed
    → Freed dirty base (end + 1) freed
Freed-grow dirty base end [] f = tt
Freed-grow dirty base end (id ∷ freed) (from, below, clean, single, f) =
    (from, omega arith, clean, single, Freed-grow dirty base end freed f)

-- A dirty number is not among the freed ones.
pub Freed-dirty :
    (dirty : ℕ → Option (List ℕ)) (base end id : ℕ) (page : List ℕ) (freed : List ℕ)
    → dirty id ≡ some page
    → Freed dirty base end freed
    → All (λ other. other ≢ id) freed
Freed-dirty dirty base end id page [] e f = tt
Freed-dirty dirty base end id page (other ∷ freed) e (from, below, clean, single, f) = (
  λ same. let no : dirty id ≡ none = ap dirty (sym same) ∙ clean in absurd cc,
  Freed-dirty dirty base end id page freed e f,
)

-- With a page set at a number of the store's own.
pub IsStore-set_page :
    (s : TxStore) (id : ℕ) (page : List ℕ)
    → IsStore s
    → s.alloc_base ≤ id
    → id < s.alloc_next
    → All (λ other. other ≢ id) s.freed
    → IsStore (set_page s id page)
IsStore-set_page s id page h from below other = record {
  dirty_from = λ i p e. elim (Bool-cases (i == id)) [
    | inl same ↦ let l : i ≡ id = ground (arith, same) in omega arith
    | inr differs ↦ h.dirty_from i p (rw (put, differs) at e)
  ];
  dirty_below = λ i p e. elim (Bool-cases (i == id)) [
    | inl same ↦ let l : i ≡ id = ground (arith, same) in omega arith
    | inr differs ↦ h.dirty_below i p (rw (put, differs) at e)
  ];
  base_below = h.base_below;
  apart = Freed-put s.dirty s.alloc_base s.alloc_next id (some page) s.freed other h.apart;
}

pub Extends-refl : (s : TxStore) → Extends s s
Extends-refl s = record { same_base = refl; same_pager = refl }

pub next_id-Extends : (s : TxStore) → Extends s (next_id s).1
unfolding next_id
next_id-Extends s = go s.freed refl
  where
    go : (freed : List ℕ) → s.freed ≡ freed → Extends s (next_id s).1
    go [] e = rw (next_id, e) (record { same_base = refl; same_pager = refl })
    go (id ∷ freed) e = rw (next_id, e) (record { same_base = refl; same_pager = refl })

-- What holds of a number that the store gives out, and of the store without it.
pub record IsNext (s : TxStore) (r : ℕ × TxStore) : Type 0 where
  pub store : IsStore r.1
  pub from : s.alloc_base ≤ r.0
  pub below : r.0 < r.1.alloc_next
  pub other : All (λ other. other ≢ r.0) r.1.freed
  pub clean : s.dirty r.0 ≡ none
  pub kept : r.1.dirty ≡ s.dirty
  pub grows : r.1.alloc_next ≤ s.alloc_next + 1

next_clean : (s : TxStore) → IsStore s → s.dirty s.alloc_next ≡ none
next_clean s h = elim (Option-cases (s.dirty s.alloc_next)) [
  | inl clean ↦ clean
  | inr (page, d) ↦ let l = h.dirty_below s.alloc_next page d in absurd (omega arith)
]

pub next_id-IsNext : (s : TxStore) → IsStore s → IsNext s (next_id s)
unfolding next_id
next_id-IsNext s h = go s.freed refl
  where
    go : (freed : List ℕ) → s.freed ≡ freed → IsNext s (next_id s)
    go [] e =
        rw (next_id, e)
          (record {
            store = record {
              dirty_from = h.dirty_from;
              dirty_below = λ i p d. let l = h.dirty_below i p d in omega arith;
              base_below = let l = h.base_below in omega arith;
              apart = Freed-grow s.dirty s.alloc_base s.alloc_next s.freed h.apart;
            };
            from = h.base_below;
            below = omega arith;
            other = rw e tt;
            clean = next_clean s h;
            kept = refl;
            grows = omega arith;
          })
    go (id ∷ freed) e =
        let (from, below, clean, single, f) : Freed s.dirty s.alloc_base s.alloc_next (id ∷ freed) =
          rw e at h.apart in
        rw (next_id, e)
          (record {
            store = record {
              dirty_from = h.dirty_from;
              dirty_below = h.dirty_below;
              base_below = h.base_below;
              apart = f;
            };
            from = from;
            below = below;
            other = single;
            clean = clean;
            kept = refl;
            grows = omega arith;
          })
