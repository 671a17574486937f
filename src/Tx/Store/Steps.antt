-- ===== src/Tx/Store/Steps.antt =====
-- The steps that change the store of a transaction, each of them an operation of tx.rs, and what a
-- result on a store has gone through.
use arkeion.Common.{
  ℕ, ◌≡◌, refl, Bool, true, false, Option, none, some, List, Option-cases, inl, inr, ◌⊎◌, arith,
  ◌==◌, if◌then◌else◌,
}
use arkeion.Error.{Error, Result, ok, err}
use arkeion.Btree.Cursor.{AppendCursor}
use arkeion.Tx.Store.{
  TxStore, set_page, zeroed, next_id, alloc, make_dirty, free, set_append_cursor,
}
use arkeion.Tx.Store.Run.{Run, ◌>>=◌, lift, body_mut, try_write}

abbrev pub after_alloc : TxStore → TxStore
after_alloc s = let (id, t) = alloc s in t

-- A page is new, is written where it is dirty, or is freed, or the cursor is set.
pub data Step (s t : TxStore) : Type 0 where
  allocates : t ≡ after_alloc s → Step s t
  writes : (id : ℕ) (page old : List ℕ) → s.dirty id ≡ some old → t ≡ set_page s id page → Step s t
  frees : (id : ℕ) → t ≡ free s id → Step s t
  sets_cursor : (cursor : Option AppendCursor) → t ≡ set_append_cursor s cursor → Step s t

pub data Steps (s : TxStore) : TxStore → Type 0 where
  stays : Steps s s
  steps : (t u : TxStore) → Steps s t → Step t u → Steps s u

pub Steps-trans : (s t u : TxStore) → Steps s t → Steps t u → Steps s u
Steps-trans s t u p stays = p
Steps-trans s t u p (steps v w q e) = steps v w (Steps-trans s t v p q) e

pub Result-cases {ℓ} :
    {A : Type ℓ} (r : Result A) → ((e : Error) × (r ≡ err e)) ⊎ ((a : A) × (r ≡ ok a))
Result-cases (err e) = inl (e, refl)
Result-cases (ok a) = inr (a, refl)

-- The store of a result, where there is one, is reached by steps.
abbrev pub Reach {ℓ} : {T : Type ℓ} → TxStore → Run T → Type 0
Reach s none = Unit
Reach s (some (r, t)) = Steps s t

pub bind-Reach {ℓ κ} :
    {T : Type ℓ} {U : Type κ} (s : TxStore) (r : Run T) (next : T → TxStore → Run U)
    → Reach s r
    → ((x : T) (t : TxStore) → Steps s t → Reach s (next x t))
    → Reach s (r >>= next)
bind-Reach s none next p h = tt
bind-Reach s (some (err e, t)) next p h = p
bind-Reach s (some (ok x, t)) next p h = h x t p

pub lift-Reach {ℓ κ} :
    {T : Type ℓ} {U : Type κ} (s t : TxStore) (r : Result T) (next : T → Run U)
    → Steps s t
    → ((x : T) → Reach s (next x))
    → Reach s (lift r t next)
lift-Reach s t (err e) next p h = p
lift-Reach s t (ok x) next p h = h x

pub if-Reach {ℓ} :
    {T : Type ℓ} (b : Bool) (s : TxStore) (x y : Run T)
    → Reach s x
    → Reach s y
    → Reach s (if b then x else y)
if-Reach true s x y p q = p
if-Reach false s x y p q = q

pub alloc-Steps : (s t : TxStore) → Steps s t → Steps s (after_alloc t)
alloc-Steps s t p = steps t (after_alloc t) p (allocates refl)

pub body_mut-Reach {ℓ} :
    {T : Type ℓ} (s t : TxStore) (id : ℕ) (next : List ℕ → Run T)
    → ((page : List ℕ) → t.dirty id ≡ some page → Reach s (next page))
    → Reach s (body_mut t id next)
body_mut-Reach s t id next h = elim (Option-cases (t.dirty id)) [
  | inl absent ↦ rw (Reach, body_mut, absent) tt
  | inr (page, e) ↦ rw (Reach, body_mut, e) (h page e)
]

pub write-Steps :
    (s t : TxStore) (id : ℕ) (page old : List ℕ)
    → t.dirty id ≡ some old
    → Steps s t
    → Steps s (set_page t id page)
write-Steps s t id page old e p = steps t (set_page t id page) p (writes id page old e refl)

pub try_write-Reach :
    (s t : TxStore) (id : ℕ) (write : List ℕ → Option (List ℕ))
    → Steps s t
    → Reach s (try_write t id write)
try_write-Reach s t id write p = body_mut-Reach s t id _ λ page e.
    elim (Option-cases (write page)) [
      | inl no_room ↦ rw no_room p
      | inr (new_page, w) ↦ rw w (write-Steps s t id new_page page e p)
    ]

-- The number of a new page is dirty.
pub alloc-dirty : (s : TxStore) → (alloc s).1.dirty (alloc s).0 ≡ some zeroed
unfolding alloc
alloc-dirty s = let same : ((next_id s).0 == (next_id s).0) ≡ true = ground arith in rw same refl

pub make_dirty-Reach : (s t : TxStore) (id : ℕ) → Steps s t → Reach s (some (make_dirty t id))
unfolding make_dirty
make_dirty-Reach s t id p = elim (Option-cases (t.dirty id)) [
  | inr (page, e) ↦ rw (Reach, make_dirty, e) p
  | inl clean ↦ elim (Result-cases (t.read_page id)) [
    | inl (e, r) ↦ rw (Reach, make_dirty, clean, r) p
    | inr (src, r) ↦
        rw (Reach, make_dirty, clean, r)
          (write-Steps s (after_alloc t) (alloc t).0 src zeroed (alloc-dirty t) (alloc-Steps s t p))
  ]
]

pub free-Steps : (s t : TxStore) (id : ℕ) → Steps s t → Steps s (free t id)
free-Steps s t id p = steps t (free t id) p (frees id refl)

pub cursor-Steps :
    (s t : TxStore) (cursor : Option AppendCursor)
    → Steps s t
    → Steps s (set_append_cursor t cursor)
cursor-Steps s t cursor p = steps t (set_append_cursor t cursor) p (sets_cursor cursor refl)
