-- ===== src/Tx/Store/Durable.antt =====
-- The steps of a store keep its numbers apart, and with them the durable pages as they are.
use arkeion.Common.{
  ℕ, ◌≤◌, ◌<◌, ◌≡◌, ◌≢◌, refl, sym, ◌∙◌, ap, arith, true, false, Option, none, some, List, inl, inr,
  Bool-cases, Option-cases, ◌==◌, leb,
}
use arkeion.Error.{corrupt, ok, err}
use arkeion.Btree.Read.{Source}
use arkeion.Tx.Store.{
  TxStore, new, put, zeroed, read_at, body, next_id, alloc, free, set_append_cursor,
}
use arkeion.Tx.Store.Steps.{
  Step, allocates, writes, frees, sets_cursor, Steps, stays, steps, after_alloc,
}
use arkeion.Tx.Store.Numbers.{
  IsStore, Extends, put_same, put_other, Freed-put, Freed-dirty, IsStore-set_page, Extends-refl,
  next_id-Extends, next_id-IsNext,
}

after_alloc-IsStore : (s : TxStore) → IsStore s → IsStore (after_alloc s)
unfolding alloc
after_alloc-IsStore s h =
    let n = next_id-IsNext s h in
    let (id, t) = next_id s in
    let from : t.alloc_base ≤ id = rw (next_id-Extends s).same_base n.from in
    IsStore-set_page t id zeroed n.store from n.below n.other

free-IsStore : (s : TxStore) (id : ℕ) → IsStore s → IsStore (free s id)
unfolding free
free-IsStore s id h = elim (Option-cases (s.dirty id)) [
  | inl clean ↦ rw (free, clean) h
  | inr (page, d) ↦
      let apart = Freed-dirty s.dirty s.alloc_base s.alloc_next id page s.freed d h.apart in
      rw (free, d)
        (record {
          dirty_from = λ i p e. elim (Bool-cases (i == id)) [
            | inl same ↦ let no = rw (put, same) at e in absurd cc
            | inr differs ↦ h.dirty_from i p (rw (put, differs) at e)
          ];
          dirty_below = λ i p e. elim (Bool-cases (i == id)) [
            | inl same ↦ let no = rw (put, same) at e in absurd cc
            | inr differs ↦ h.dirty_below i p (rw (put, differs) at e)
          ];
          base_below = h.base_below;
          apart = (
            h.dirty_from id page d,
            h.dirty_below id page d,
            put_same s.dirty id none,
            apart,
            Freed-put s.dirty s.alloc_base s.alloc_next id none s.freed apart h.apart,
          );
        })
]

Step-IsStore : (s t : TxStore) → Step s t → IsStore s → IsStore t
unfolding set_append_cursor
Step-IsStore s t (allocates e) h = rw e (after_alloc-IsStore s h)
Step-IsStore s t (writes id page old d e) h = rw e (
    IsStore-set_page s id page h (h.dirty_from id old d) (h.dirty_below id old d)
      (Freed-dirty s.dirty s.alloc_base s.alloc_next id old s.freed d h.apart))
Step-IsStore s t (frees id e) h = rw e (free-IsStore s id h)
Step-IsStore s t (sets_cursor cursor e) h = rw e (record {
  dirty_from = h.dirty_from;
  dirty_below = h.dirty_below;
  base_below = h.base_below;
  apart = h.apart;
})

pub after_alloc-Extends : (s : TxStore) → Extends s (after_alloc s)
unfolding alloc
after_alloc-Extends s =
    let x = next_id-Extends s in record { same_base = x.same_base; same_pager = x.same_pager }

free-Extends : (s : TxStore) (id : ℕ) → Extends s (free s id)
unfolding free
free-Extends s id = elim (Option-cases (s.dirty id)) [
  | inl clean ↦ rw (free, clean) (Extends-refl s)
  | inr (page, d) ↦ rw (free, d) (record { same_base = refl; same_pager = refl })
]

Step-Extends : (s t : TxStore) → Step s t → Extends s t
unfolding set_append_cursor
Step-Extends s t (allocates e) = rw e (after_alloc-Extends s)
Step-Extends s t (writes id page old d e) = rw e (record { same_base = refl; same_pager = refl })
Step-Extends s t (frees id e) = rw e (free-Extends s id)
Step-Extends s t (sets_cursor cursor e) = rw e (record { same_base = refl; same_pager = refl })

pub Steps-IsStore : (s t : TxStore) → Steps s t → IsStore s → IsStore t
Steps-IsStore s t stays h = h
Steps-IsStore s t (steps u v p e) h = Step-IsStore u t e (Steps-IsStore s u p h)

pub Steps-Extends : (s t : TxStore) → Steps s t → Extends s t
Steps-Extends s t stays = Extends-refl s
Steps-Extends s t (steps u v p e) =
    let x = Steps-Extends s u p in
    let y = Step-Extends u t e in
    record { same_base = y.same_base ∙ x.same_base; same_pager = y.same_pager ∙ x.same_pager }

-- The store of a new transaction.
pub new-IsStore : (read_page : Source) (n_pages : ℕ) → IsStore (new read_page n_pages)
new-IsStore read_page n_pages = record {
  dirty_from = λ id page e. absurd cc;
  dirty_below = λ id page e. absurd cc;
  base_below = omega arith;
  apart = tt;
}

pub body-Extends :
    (s t : TxStore) (id : ℕ) → Extends s t → t.dirty id ≡ s.dirty id → body t id ≡ body s id
unfolding read_at
body-Extends s t id x d = rw (read_at, d, x.same_base, x.same_pager) refl

-- On a store whose freed and dirty pages are apart and behind the durable ones, the page that
-- alloc gives out was refused as freed before, is zeroed after, and every other page reads as
-- before.
pub alloc-fresh :
    (s : TxStore)
    → IsStore s
    → (body s (alloc s).0 ≡ err (corrupt (alloc s).0 "página transitoria liberada"))
      × (body (after_alloc s) (alloc s).0 ≡ ok zeroed)
      × ((id : ℕ) → id ≢ (alloc s).0 → body (after_alloc s) id ≡ body s id)
unfolding alloc read_at
alloc-fresh s h =
    let n = next_id-IsNext s h in
    let x = after_alloc-Extends s in
    let (new_id, t) = next_id s in
    let low : leb s.alloc_base new_id ≡ true = ground (arith, n.from) in
    (
      rw (read_at, n.clean, low) refl,
      rw (read_at, put_same t.dirty new_id (some zeroed)) refl,
      λ id differs. body-Extends s (after_alloc s) id x (
          put_other t.dirty new_id id (some zeroed) differs
          ∙ ap (λ (f : ℕ → Option (List ℕ)). f id) n.kept),
    )

-- The durable pages are those of the pager.
pub body-durable :
    (s : TxStore) (id : ℕ) → IsStore s → id < s.alloc_base → body s id ≡ s.read_page id
unfolding read_at
body-durable s id h below = elim (Option-cases (s.dirty id)) [
  | inl clean ↦
      let low : leb s.alloc_base id ≡ false = ground (arith, below) in rw (read_at, clean, low) refl
  | inr (page, d) ↦ let from = h.dirty_from id page d in absurd (omega arith)
]

pub body-Steps :
    (s t : TxStore) (id : ℕ) → IsStore s → Steps s t → id < s.alloc_base → body t id ≡ body s id
body-Steps s t id h p below =
    let x = Steps-Extends s t p in
    let low : id < t.alloc_base = rw x.same_base below in
    body-durable t id (Steps-IsStore s t p h) low
    ∙ ap (λ (f : Source). f id) x.same_pager
    ∙ sym (body-durable s id h below)
