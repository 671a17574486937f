-- ===== src/Commit/Log.antt =====
-- The log that the pages of a file hold, data pages and the commits that link, and the forward
-- scan of `recover` of commit.rs along it.
use arkeion.Common.{
  ℕ, zero, suc, ◌+◌, ◌≤◌, ◌≡◌, refl, ap, sym, ◌∙◌, arith, true, false, Bool-cases, none, some,
  Option-cases, ◌==◌, ◌⊎◌, inl, inr, List,
}
use mathlib.Core.Path.{subst}
use arkeion.Common.Fields.{eq_bytes, eq_bytes→eq, eq_bytes_refl}
use arkeion.Commit.{
  CommitHeader, compute_chain, is_checkpoint, Pager, Head, decode_commit, self_consistent,
  head_from, adopts, scan,
}

module _ (sha256 : List ℕ → List ℕ) where
  -- A commit goes on from a head: it has the next version, or is the checkpoint at the start of a
  -- compacted file; it names the head's chain hash; and its own hash is that of what it says.
  abbrev pub Links : Head → CommitHeader → Type 0
  Links head h =
      ((h.version ≡ head.version + 1) ⊎ ((head.commit_page ≡ 0) × (is_checkpoint h ≡ true)))
      × (h.prev_chain ≡ head.chain_hash)
      × (h.chain_hash ≡ compute_chain sha256 h)

  pub adopts→Links : (head : Head) (h : CommitHeader) → adopts sha256 head h ≡ true → Links head h
  unfolding adopts self_consistent
  adopts→Links head h e = (
    elim (Bool-cases (h.version == head.version + 1)) [
      | inl t ↦ inl (ground (arith, t))
      | inr f ↦ inr (ground (arith, f), ground (arith, f))
    ],
    ground (arith, eq_bytes→eq h.prev_chain head.chain_hash),
    ground (arith, eq_bytes→eq h.chain_hash (compute_chain sha256 h)),
  )

  pub Links→adopts : (head : Head) (h : CommitHeader) → Links head h → adopts sha256 head h ≡ true
  unfolding adopts self_consistent
  Links→adopts head h (next, link, chain) =
      let linked : eq_bytes h.prev_chain head.chain_hash ≡ true =
        ap (λ b. eq_bytes b head.chain_hash) link ∙ eq_bytes_refl head.chain_hash in
      let hashed : eq_bytes h.chain_hash (compute_chain sha256 h) ≡ true =
        ap (λ b. eq_bytes b (compute_chain sha256 h)) chain
        ∙ eq_bytes_refl (compute_chain sha256 h) in
      elim next [
        | inl n ↦ ground (arith, n, linked, hashed)
        | inr (first, checkpoint) ↦ ground (arith, first, checkpoint, linked, hashed)
      ]

  pub not_Links→adopts :
      (head : Head) (h : CommitHeader) → ¬ (Links head h) → adopts sha256 head h ≡ false
  not_Links→adopts head h n = elim (Bool-cases (adopts sha256 head h)) [
    | inl t ↦ absurd (n (adopts→Links head h t))
    | inr f ↦ f
  ]

module _ (sha256 : List ℕ → List ℕ) (pager : Pager) where
  -- The log from a page and the head before it to a page and the head there.
  pub data Log : ℕ → Head → ℕ → Head → Type 0 where
    here : {pid : ℕ} {head : Head} → Log pid head pid head
    data_page :
        {pid end : ℕ} {head last : Head} (body : List ℕ)
        → pager.read_page pid ≡ some body
        → decode_commit body ≡ none
        → Log (pid + 1) head end last
        → Log pid head end last
    commit_page :
        {pid end : ℕ} {head last : Head} (body : List ℕ) (h : CommitHeader)
        → pager.read_page pid ≡ some body
        → decode_commit body ≡ some h
        → Links sha256 head h
        → Log (pid + 1) (head_from h pid) end last
        → Log pid head end last

  -- Where a log cannot go on: the end of the file, an unreadable page, a commit that does not link.
  pub data Torn : ℕ → Head → Type 0 where
    end_of_file : {pid : ℕ} {head : Head} → pager.n_pages ≤ pid → Torn pid head
    unreadable : {pid : ℕ} {head : Head} → pager.read_page pid ≡ none → Torn pid head
    unlinked :
        {pid : ℕ} {head : Head} (body : List ℕ) (h : CommitHeader)
        → pager.read_page pid ≡ some body
        → decode_commit body ≡ some h
        → ¬ (Links sha256 head h)
        → Torn pid head

  pub Log-le : {a b : ℕ} {x y : Head} → Log a x b y → a ≤ b
  Log-le here = omega arith
  Log-le (data_page body r d l) = omega (arith, Log-le l)
  Log-le (commit_page body h r d k l) = omega (arith, Log-le l)

  -- Two logs from one place: the longer goes on from the end of the shorter.
  pub Log-rest : {a b c : ℕ} {x y z : Head} → Log a x b y → Log a x c z → b ≤ c → Log b y c z
  Log-rest here l le = l
  Log-rest (data_page body r d k) here le = absurd (omega (arith, Log-le k))
  Log-rest (data_page body r d k) (data_page body2 r2 d2 l) le = Log-rest k l le
  Log-rest (data_page body r d k) (commit_page body2 h r2 d2 o l) le = cc
  Log-rest (commit_page body h r d o k) here le = absurd (omega (arith, Log-le k))
  Log-rest (commit_page body h r d o k) (data_page body2 r2 d2 l) le = cc
  Log-rest {a = a} {c = c} {z = z} (commit_page body h r d o k) (commit_page body2 h2 r2 d2 o2 l)
        le =
      let same : h2 ≡ h = cc in Log-rest k (subst (λ g. Log (a + 1) (head_from g a) c z) same l) le

  -- The scan runs a log to its end when it has the rounds to get there.
  pub scan-Log :
      (rounds : ℕ) {pid end : ℕ} {head last : Head}
      → Log pid head end last
      → Torn end last
      → end ≤ pager.n_pages
      → pid + rounds ≡ pager.n_pages
      → scan sha256 pager rounds pid head ≡ last
  unfolding scan
  scan-Log zero here t le e = refl
  scan-Log (suc rounds) here (end_of_file p) le e = absurd (omega arith)
  scan-Log (suc rounds) here (unreadable p) le e = ground (arith, p)
  scan-Log (suc rounds) {head = head} here (unlinked body h r d n) le e =
      rw (scan, r, d, not_Links→adopts sha256 head h n) refl
  scan-Log zero (data_page body r d l) t le e = absurd (omega (arith, Log-le l))
  scan-Log (suc rounds) (data_page body r d l) t le e =
      ground (arith, r, d, scan-Log rounds l t le (omega arith))
  scan-Log zero (commit_page body h r d k l) t le e = absurd (omega (arith, Log-le l))
  scan-Log (suc rounds) {head = head} (commit_page body h r d k l) t le e =
      rw (scan, r, d, Links→adopts sha256 head h k) (scan-Log rounds l t le (omega arith))

  -- The scan follows a log until it is torn.
  pub scan-reaches :
      (rounds pid : ℕ) (head : Head)
      → pager.n_pages ≤ pid + rounds
      → (end : ℕ) × Log pid head end (scan sha256 pager rounds pid head)
        × Torn end (scan sha256 pager rounds pid head)
  unfolding scan
  scan-reaches zero pid head e = (pid, here, end_of_file (omega arith))
  scan-reaches (suc rounds) pid head e = elim (Option-cases (pager.read_page pid)) [
    | inl r ↦ rw (scan, r) (pid, here, unreadable r)
    | inr (body, r) ↦
        rw (scan, r)
          (elim (Option-cases (decode_commit body)) [
            | inl d ↦
                let (end, l, t) = scan-reaches rounds (pid + 1) head (omega arith) in
                rw d (end, data_page body r d l, t)
            | inr (h, d) ↦ rw d (elim (Bool-cases (adopts sha256 head h)) [
              | inl k ↦
                  let (end, l, t) = scan-reaches rounds (pid + 1) (head_from h pid) (omega arith) in
                  rw k (end, commit_page body h r d (adopts→Links sha256 head h k) l, t)
              | inr k ↦ rw k (
                pid,
                here,
                unlinked body h r d (λ l.
                    let adopted : true ≡ false = sym (Links→adopts sha256 head h l) ∙ k in
                    absurd cc),
              )
            ])
          ])
  ]
