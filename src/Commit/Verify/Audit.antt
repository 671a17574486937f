-- ===== src/Commit/Verify/Audit.antt =====
-- What an audit that succeeds has established of the pages, and when it succeeds.
use arkeion.Common.{
  ℕ, ◌≡◌, ◌⊎◌, inl, inr, refl, sym, arith, true, false, Bool-cases, Option, none, some,
  Option-cases, List, [], ◌∷◌, length, ◌==◌,
}
use arkeion.Common.Fields.{eq_bytes, eq_bytes→eq, eq_bytes_refl}
use arkeion.Error.{ok, err, ◌>>=◌, bind-eq-ok}
use arkeion.Commit.{Pager, Head, AuditReport, AuditAnchor, genesis_chain}
use arkeion.Commit.Verify.Links.{
  Chained, check_commit→Checked, check_commits→Chained, Chained→check_commits,
}
use arkeion.Commit.Verify.Walk.{Walked, walk→Walked, Walked→walk}
use arkeion.Commit.Verify.{
  Commit, walk, version_before, Progress, check_anchor, check_commit, check_commits, check_seen,
  check_end, audit, verify_anchored, verify,
}

-- A commit of the history is the anchored one.
pub Anchored : Option AuditAnchor → List Commit → Type 0
Anchored none cs = Unit
Anchored (some a) [] = ⊥
Anchored (some a) (c ∷ cs) =
    ((c.1.version ≡ a.version) × (c.1.chain_hash ≡ a.chain_hash)) ⊎ Anchored (some a) cs

module _ (sha256 : List ℕ → List ℕ) (pager : Pager) where
  check_commits→Anchored :
      (a : AuditAnchor) (cs : List Commit) (s s' : Progress)
      → check_commits sha256 pager (some a) cs s ≡ ok s'
      → s'.anchor_seen ≡ true
      → (s.anchor_seen ≡ true) ⊎ Anchored (some a) cs
  unfolding check_commits check_anchor Anchored
  check_commits→Anchored a [] s s' e seen = inl cc
  check_commits→Anchored a ((pid, h) ∷ cs) s s' e seen =
      let (s1, first, rest) = bind-eq-ok (check_commit sha256 pager (some a) (pid, h) s) _ e in
      let k = check_commit→Checked sha256 pager (some a) (pid, h) s s1 first in
      elim (check_commits→Anchored a cs s1 s' rest seen) [
        | inr there ↦ inr (inr there)
        | inl before ↦ elim (Bool-cases (h.version == a.version)) [
          | inl t ↦ inr (
              inl (
                ground (arith, t),
                ground (arith, t, k.anchored, eq_bytes→eq h.chain_hash a.chain_hash),
              ))
          | inr f ↦ inl (ground (arith, f, k.anchored, before))
        ]
      ]

  -- The history that an audit of a head certifies.
  pub record Audited (head : Head) (anchor : Option AuditAnchor) (r : AuditReport) : Type 0 where
    pub commits : List Commit
    pub walked : Walked pager head.commit_page [] commits
    pub chained :
        Chained sha256 pager
          (genesis_chain sha256 pager.file_id)
          (version_before commits)
          commits
          head.chain_hash
          head.version
    pub anchored : Anchored anchor commits
    pub report : r ≡ (record {
      head = head.version;
      commits = length commits;
      chain_ok = true;
      chain_hash = head.chain_hash;
    })

  -- What the last checks of an audit have established.
  record Ended (anchor : Option AuditAnchor) (head : Head) (s : Progress) : Type 0 where
    version : s.expected_version ≡ head.version
    chain : s.prev_chain ≡ head.chain_hash
    seen : check_seen anchor head s.anchor_seen ≡ ok tt

  check_end→Ended :
      (anchor : Option AuditAnchor) (head : Head) (commits : ℕ) (s : Progress) (r : AuditReport)
      → check_end anchor head commits s ≡ ok r
      → Ended anchor head s
        × (r ≡ (record {
          head = head.version;
          commits = commits;
          chain_ok = true;
          chain_hash = head.chain_hash;
        }))
  unfolding check_end
  check_end→Ended anchor head commits s r e =
      elim (Bool-cases (s.expected_version == head.version)) [
        | inr f ↦ absurd (ground (arith, f))
        | inl t ↦ elim (Bool-cases (eq_bytes s.prev_chain head.chain_hash)) [
          | inr f ↦ absurd (ground (arith, t, f))
          | inl u ↦
              let (one, seen, made) =
                bind-eq-ok (check_seen anchor head s.anchor_seen) _ (rw (t, u) at e) in
              (
                record {
                  version = ground (arith, t);
                  chain = eq_bytes→eq s.prev_chain head.chain_hash u;
                  seen = seen;
                },
                cc,
              )
        ]
      ]

  seen-Anchored :
      (anchor : Option AuditAnchor) (head : Head) (cs : List Commit) (s s' : Progress)
      → s.anchor_seen ≡ false
      → check_commits sha256 pager anchor cs s ≡ ok s'
      → check_seen anchor head s'.anchor_seen ≡ ok tt
      → Anchored anchor cs
  unfolding Anchored check_seen
  seen-Anchored none head cs s s' start e seen = tt
  seen-Anchored (some a) head cs s s' start e seen = elim (Bool-cases s'.anchor_seen) [
    | inl t ↦ elim (check_commits→Anchored a cs s s' e t) [ inl before ↦ cc | inr there ↦ there ]
    | inr f ↦ absurd (ground (arith, f))
  ]

  -- An audit that succeeds, with an anchor or without, has found a history that is linked from
  -- the head to its start, numbered without gaps, hashed to its content hashes and chained from
  -- the genesis hash to the head, and that contains the anchor.
  pub verify_anchored-Audited :
      (fuel : ℕ) (head : Head) (anchor : Option AuditAnchor) (r : AuditReport)
      → verify_anchored sha256 fuel pager head anchor ≡ some (ok r)
      → Audited head anchor r
  unfolding verify_anchored audit
  verify_anchored-Audited fuel head anchor r e =
      elim (Option-cases (walk pager fuel head.version head.commit_page [])) [
        | inl w ↦ absurd (ground (arith, w))
        | inr (err x, w) ↦ absurd (ground (arith, w))
        | inr (ok cs, w) ↦
            let start : Progress = record {
              prev_chain = genesis_chain sha256 pager.file_id;
              expected_version = version_before cs;
              anchor_seen = false;
            } in
            let run : (check_commits sha256 pager anchor cs start >>= λ s.
            check_end anchor head (length cs) s)
                ≡ ok r =
              ground (arith, w) in
            let (s', checked, ended) =
              bind-eq-ok (check_commits sha256 pager anchor cs start) _ run in
            let (end, report) = check_end→Ended anchor head (length cs) s' r ended in
            record {
              commits = cs;
              walked = walk→Walked pager fuel head.version head.commit_page [] cs w;
              chained =
                  rw (sym end.chain, sym end.version)
                    (check_commits→Chained sha256 pager anchor cs start s' checked);
              anchored = seen-Anchored anchor head cs start s' refl checked end.seen;
              report = report;
            }
      ]

  Ended→check_end :
      (head : Head) (commits : ℕ)
      → check_end none head commits (record {
        prev_chain = head.chain_hash;
        expected_version = head.version;
        anchor_seen = false;
      })
        ≡ ok (record {
          head = head.version;
          commits = commits;
          chain_ok = true;
          chain_hash = head.chain_hash;
        })
  unfolding check_end check_seen
  Ended→check_end head commits = ground (arith, eq_bytes_refl head.chain_hash)

  -- Every history that is linked, numbered, hashed and chained as the audit asks is accepted by
  -- the audit without an anchor, with the report on it, for some amount of fuel.
  pub verify_complete :
      (head : Head) (r : AuditReport)
      → Audited head none r
      → (fuel : ℕ) × (verify sha256 fuel pager head ≡ some (ok r))
  unfolding verify verify_anchored audit
  verify_complete head r a =
      let (fuel, w) = Walked→walk pager head.version a.walked in
      (
        fuel,
        rw
            (
              verify,
              verify_anchored,
              w,
              Chained→check_commits sha256 pager a.commits (genesis_chain sha256 pager.file_id)
                  head.chain_hash (version_before a.commits) head.version false a.chained,
              Ended→check_end head (length a.commits),
              a.report,
            )
            refl,
      )
