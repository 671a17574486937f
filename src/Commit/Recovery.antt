-- ===== src/Commit/Recovery.antt =====
-- `recover` of commit.rs against the log that the pages hold.
use arkeion.Common.{
  ℕ, ◌-◌, ◌≤◌, ◌≡◌, refl, arith, Bool-cases, some, Option-cases, ◌⊎◌, inl, inr, List, [], ◌∷◌, All,
  leb, leb→le,
}
use arkeion.Format.{MetaSlot, first_data_page}
use arkeion.Commit.{
  Pager, Head, genesis_head, try_head_at, find_head, sort_slots, insert_slot, recover,
}
use arkeion.Commit.Log.{Log, Torn, Log-le, Log-rest, scan-Log, scan-reaches}

module _ (sha256 : List ℕ → List ℕ) (pager : Pager) where
  -- A slot's commit page, when it is a commit that the scan can start from.
  Starts : (Head → Type 0) → MetaSlot → Type 0
  Starts P m =
      (h : Head)
      → first_data_page ≤ m.last_commit_page
      → try_head_at sha256 pager m.last_commit_page ≡ some h
      → P h

  insert_slot-All :
      (P : MetaSlot → Type 0) (m : MetaSlot) (ms : List MetaSlot)
      → P m
      → All P ms
      → All P (insert_slot m ms)
  unfolding insert_slot
  insert_slot-All P m [] p all = (p, tt)
  insert_slot-All P m (x ∷ xs) p all = elim (Bool-cases (leb x.version m.version)) [
    | inl e ↦ rw e (p, all)
    | inr e ↦ rw e (all.0, insert_slot-All P m xs p all.1)
  ]

  sort_slots-All : (P : MetaSlot → Type 0) (ms : List MetaSlot) → All P ms → All P (sort_slots ms)
  unfolding sort_slots
  sort_slots-All P [] all = tt
  sort_slots-All P (m ∷ ms) all =
      insert_slot-All P m (sort_slots ms) all.0 (sort_slots-All P ms all.1)

  find_head_lem :
      (P : Head → Type 0) (ms : List MetaSlot) (genesis : Head)
      → P genesis
      → All (Starts P) ms
      → P (find_head sha256 pager ms genesis)
  unfolding find_head Starts
  find_head_lem P [] genesis p all = p
  find_head_lem P (m ∷ ms) genesis p all =
      let rest = find_head_lem P ms genesis p all.1 in
      elim (Bool-cases (leb first_data_page m.last_commit_page)) [
        | inl e ↦ rw e (elim (Option-cases (try_head_at sha256 pager m.last_commit_page)) [
          | inl t ↦ rw t rest
          | inr (h, t) ↦ rw t (all.0 h (leb→le first_data_page m.last_commit_page e) t)
        ])
        | inr e ↦ rw e rest
      ]

  -- Where recovery may start: at the genesis, or at a valid commit that a slot names.
  pub Start : Head → Type 0
  Start head =
      (head ≡ genesis_head sha256 pager.file_id)
      ⊎ ((page : ℕ) × (first_data_page ≤ page) × (try_head_at sha256 pager page ≡ some head))

  Starts-All : (ms : List MetaSlot) → All (Starts Start) ms
  unfolding Starts Start
  Starts-All [] = tt
  Starts-All (m ∷ ms) = (λ h le t. inr (m.last_commit_page, le, t), Starts-All ms)

  -- On any file, recovery starts at the genesis or at a valid commit, follows a log from there,
  -- and stops only where the log is torn.
  pub recover-reaches :
      (start : Head) × (end : ℕ) × Start start
      × Log sha256 pager start.n_pages start end (recover sha256 pager)
      × Torn sha256 pager end (recover sha256 pager)
  unfolding recover Start
  recover-reaches =
      let genesis : Head = genesis_head sha256 pager.file_id in
      let slots : List MetaSlot = sort_slots pager.meta_slots in
      let head : Head = find_head sha256 pager slots genesis in
      let (end, l, t) =
        scan-reaches sha256 pager (pager.n_pages - head.n_pages) head.n_pages head (omega arith) in
      (head, end, find_head_lem Start slots genesis (inl refl) (Starts-All slots), l, t)

  -- A slot's hint that holds: what it names, if it is a commit, is one of the log up to `end`.
  unfoldable pub Hint : ℕ → MetaSlot → Type 0
  Hint end m =
      (h : Head)
      → first_data_page ≤ m.last_commit_page
      → try_head_at sha256 pager m.last_commit_page ≡ some h
      → (h.n_pages ≤ end)
        × Log sha256 pager first_data_page (genesis_head sha256 pager.file_id) h.n_pages h

  -- On a file whose pages hold a log (data pages and commits that link, from the genesis on)
  -- torn at its end, and whose meta slots name a commit of that log or nothing valid, recovery
  -- returns the last commit of the log.
  pub recover-last :
      (end : ℕ) (last : Head)
      → Log sha256 pager first_data_page (genesis_head sha256 pager.file_id) end last
      → Torn sha256 pager end last
      → end ≤ pager.n_pages
      → All (Hint end) pager.meta_slots
      → recover sha256 pager ≡ last
  unfolding recover genesis_head Starts Hint
  recover-last end last log torn le hints =
      let genesis : Head = genesis_head sha256 pager.file_id in
      let P : Head → Type 0 = λ h. Log sha256 pager h.n_pages h end last in
      let slots : List MetaSlot = sort_slots pager.meta_slots in
      let head : Head = find_head sha256 pager slots genesis in
      let rest : Log sha256 pager head.n_pages head end last =
        find_head_lem P slots genesis (genesis-Log log)
          (sort_slots-All (Starts P) pager.meta_slots (hints-Starts pager.meta_slots hints)) in
      let bound = Log-le sha256 pager rest in
      scan-Log sha256 pager (pager.n_pages - head.n_pages) rest torn le (omega arith)
    where
      genesis-Log :
          Log sha256 pager first_data_page (genesis_head sha256 pager.file_id) end last
          → Log sha256 pager
              (genesis_head sha256 pager.file_id).n_pages
              (genesis_head sha256 pager.file_id)
              end
              last
      genesis-Log l = l

      hints-Starts :
          (ms : List MetaSlot)
          → All (Hint end) ms
          → All (Starts (λ h. Log sha256 pager h.n_pages h end last)) ms
      hints-Starts [] all = tt
      hints-Starts (m ∷ ms) all = (
        λ h first t. let (short, l) = all.0 h first t in Log-rest sha256 pager l log short,
        hints-Starts ms all.1,
      )
