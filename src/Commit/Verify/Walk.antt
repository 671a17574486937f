-- ===== src/Commit/Verify/Walk.antt =====
-- The backward walk of `verify_anchored`: what it collects, when it ends and when it does not.
use arkeion.Common.{
  ℕ, zero, suc, ◌≤◌, ◌<◌, ◌≡◌, inl, inr, refl, sym, arith, none, some, Option-cases, List, ◌∷◌,
}
use mathlib.Core.Path.{subst}
use arkeion.Error.{Result, ok}
use arkeion.Commit.{CommitHeader, decode_commit, Pager}
use arkeion.Commit.Verify.{Commit, walk}

module _ (pager : Pager) where
  -- The commits that the links from page to page collect, in front of those already collected.
  pub data Walked : ℕ → List Commit → List Commit → Type 0 where
    genesis : {headers : List Commit} → Walked 0 headers headers
    older :
        {page : ℕ} {headers all : List Commit} (body : List ℕ) (h : CommitHeader)
        → pager.read_page (suc page) ≡ some body
        → decode_commit body ≡ some h
        → Walked h.prev_page ((suc page, h) ∷ headers) all
        → Walked (suc page) headers all

  pub walk→Walked :
      (fuel version page : ℕ) (headers all : List Commit)
      → walk pager fuel version page headers ≡ some (ok all)
      → Walked page headers all
  unfolding walk
  walk→Walked fuel version zero headers all e =
      let same : headers ≡ all = cc in subst (λ l. Walked 0 headers l) same genesis
  walk→Walked zero version (suc page) headers all e = cc
  walk→Walked (suc fuel) version (suc page) headers all e =
      elim (Option-cases (pager.read_page (suc page))) [
        | inl r ↦ absurd (ground (arith, r))
        | inr (body, r) ↦ elim (Option-cases (decode_commit body)) [
          | inl d ↦ absurd (ground (arith, r, d))
          | inr (h, d) ↦ older body h r d (
              walk→Walked fuel version h.prev_page ((suc page, h) ∷ headers) all
                (ground (arith, r, d)))
        ]
      ]

  pub Walked→walk :
      (version : ℕ) {page : ℕ} {headers all : List Commit}
      → Walked page headers all
      → (fuel : ℕ) × (walk pager fuel version page headers ≡ some (ok all))
  unfolding walk
  Walked→walk version genesis = (0, refl)
  Walked→walk version (older body h r d w) =
      let (fuel, e) = Walked→walk version w in (suc fuel, rw (walk, r, d) e)

  -- When every commit page of the file links to a page before it, the backward walk of the audit
  -- ends within as many rounds as the number of the page that it starts on.
  pub walk-ends :
      ((page : ℕ) (body : List ℕ) (h : CommitHeader)
        → pager.read_page page ≡ some body
        → decode_commit body ≡ some h
        → h.prev_page < page)
      → (fuel version page : ℕ) (headers : List Commit) → page ≤ fuel
      → (r : Result (List Commit)) × (walk pager fuel version page headers ≡ some r)
  unfolding walk
  walk-ends back fuel version zero headers le = (ok headers, refl)
  walk-ends back zero version (suc page) headers le = absurd (omega arith)
  walk-ends back (suc fuel) version (suc page) headers le =
      elim (Option-cases (pager.read_page (suc page))) [
        | inl r ↦ rw (walk, r) (_, refl)
        | inr (body, r) ↦
            rw (walk, r)
              (elim (Option-cases (decode_commit body)) [
                | inl d ↦ rw d (_, refl)
                | inr (h, d) ↦
                    let less = back (suc page) body h r d in
                    rw d (
                      walk-ends back fuel version h.prev_page ((suc page, h) ∷ headers)
                        (omega arith))
              ])
      ]

  -- On a commit page that links to itself the backward walk of the audit ends for no amount of
  -- fuel.
  pub walk-never_ends :
      (page : ℕ) (body : List ℕ) (h : CommitHeader)
      → pager.read_page (suc page) ≡ some body
      → decode_commit body ≡ some h
      → h.prev_page ≡ suc page
      → (fuel version : ℕ) (headers : List Commit)
      → walk pager fuel version (suc page) headers ≡ none
  unfolding walk
  walk-never_ends page body h r d e zero version headers = refl
  walk-never_ends page body h r d e (suc fuel) version headers =
      let more : List Commit = (suc page, h) ∷ headers in
      rw (walk, r, d)
        (subst (λ p. walk pager fuel version p more ≡ none) (sym e)
          (walk-never_ends page body h r d e fuel version more))
