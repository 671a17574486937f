-- ===== src/Commit/Verify/Links.antt =====
-- The links that the rounds of `verify_anchored` check from commit to commit.
use arkeion.Common.{
  ℕ, ◌+◌, ◌-◌, ◌≤◌, ◌≡◌, inl, inr, refl, ap, ◌∙◌, arith, Bool, true, Bool-cases, Option, none, some,
  Option-cases, List, [], ◌∷◌, le→ltb-false, ◌==◌,
}
use arkeion.Common.Fields.{eq_bytes, eq_bytes→eq, eq_bytes_refl}
use arkeion.Error.{ok, ◌>>=◌, ◌>>◌, bind-eq-ok}
use arkeion.Commit.{Pager, AuditAnchor, compute_chain}
use arkeion.Commit.Verify.{
  Commit, read_pages, Progress, check_anchor, check_links, check_commit, check_commits,
}

module _ (sha256 : List ℕ → List ℕ) (pager : Pager) where
  -- A commit that stands in the chain after `prev_chain` and version `v`: its data pages are
  -- readable and hash to its content hash, and its own hash is the hash of what it says.
  pub record Linked (c : Commit) (prev_chain : List ℕ) (v : ℕ) : Type 0 where
    pub version : c.1.version ≡ v + 1
    pub room : c.1.pages_written - 1 ≤ c.0
    pub bodies : List ℕ
    pub readable :
        read_pages pager (c.1.pages_written - 1) (c.0 - (c.1.pages_written - 1)) ≡ some bodies
    pub content : sha256 bodies ≡ c.1.content_hash
    pub link : c.1.prev_chain ≡ prev_chain
    pub chain : c.1.chain_hash ≡ compute_chain sha256 c.1

  -- The commits lead, each from the one before it, from a chain hash and a version to the last.
  abbrev pub Chained : List ℕ → ℕ → List Commit → List ℕ → ℕ → Type 0
  Chained prev_chain v [] chain_hash version = (prev_chain ≡ chain_hash) × (v ≡ version)
  Chained prev_chain v (c ∷ cs) chain_hash version =
      Linked c prev_chain v × Chained c.1.chain_hash (v + 1) cs chain_hash version

  check_links→Linked :
      (c : Commit) (prev_chain : List ℕ) (v : ℕ)
      → c.1.version ≡ v + 1
      → check_links sha256 pager c prev_chain ≡ ok tt
      → Linked c prev_chain v
  unfolding check_links
  check_links→Linked (pid, h) prev_chain v e k =
      elim (Option-cases (read_pages pager (h.pages_written - 1) (pid - (h.pages_written - 1)))) [
        | inl r ↦ absurd (ground (arith, r))
        | inr (bodies, r) ↦ record {
          version = e;
          room = ground (arith, r);
          bodies = bodies;
          readable = r;
          content = ground (arith, r, eq_bytes→eq (sha256 bodies) h.content_hash);
          link = ground (arith, r, eq_bytes→eq h.prev_chain prev_chain);
          chain = ground (arith, r, eq_bytes→eq h.chain_hash (compute_chain sha256 h));
        }
      ]

  Linked→check_links :
      (c : Commit) (prev_chain : List ℕ) (v : ℕ)
      → Linked c prev_chain v
      → check_links sha256 pager c prev_chain ≡ ok tt
  unfolding check_links
  Linked→check_links (pid, h) prev_chain v l =
      let content : eq_bytes (sha256 l.bodies) h.content_hash ≡ true =
        ap (λ b. eq_bytes b h.content_hash) l.content ∙ eq_bytes_refl h.content_hash in
      let link : eq_bytes h.prev_chain prev_chain ≡ true =
        ap (λ b. eq_bytes b prev_chain) l.link ∙ eq_bytes_refl prev_chain in
      let chain : eq_bytes h.chain_hash (compute_chain sha256 h) ≡ true =
        ap (λ b. eq_bytes b (compute_chain sha256 h)) l.chain
        ∙ eq_bytes_refl (compute_chain sha256 h) in
      rw (le→ltb-false pid (h.pages_written - 1) l.room, l.readable, content, link, chain) refl

  -- What one round of the loop has checked, and what it carries on.
  pub record Checked (anchor : Option AuditAnchor) (c : Commit) (s s' : Progress) : Type 0 where
    pub version : c.1.version ≡ s.expected_version + 1
    pub links : check_links sha256 pager c s.prev_chain ≡ ok tt
    pub anchored : check_anchor anchor c.1 s.anchor_seen ≡ ok s'.anchor_seen
    pub next_chain : c.1.chain_hash ≡ s'.prev_chain
    pub next_version : s.expected_version + 1 ≡ s'.expected_version

  pub check_commit→Checked :
      (anchor : Option AuditAnchor) (c : Commit) (s s' : Progress)
      → check_commit sha256 pager anchor c s ≡ ok s'
      → Checked anchor c s s'
  unfolding check_commit
  check_commit→Checked anchor (pid, h) s s' e =
      elim (Bool-cases (h.version == s.expected_version + 1)) [
        | inr f ↦ absurd (ground (arith, f))
        | inl t ↦
            let opened : (check_links sha256 pager (pid, h) s.prev_chain
                  >> (check_anchor anchor h s.anchor_seen >>= λ seen. ok (record {
                    prev_chain = h.chain_hash;
                    expected_version = s.expected_version + 1;
                    anchor_seen = seen;
                  })))
                ≡ ok s' =
              rw t at e in
            let (u, links, rest) =
              bind-eq-ok (check_links sha256 pager (pid, h) s.prev_chain) _ opened in
            let (seen, anchored, made) = bind-eq-ok (check_anchor anchor h s.anchor_seen) _ rest in
            record {
              version = ground (arith, t);
              links = links;
              anchored = cc;
              next_chain = cc;
              next_version = cc;
            }
      ]

  pub check_commits→Chained :
      (anchor : Option AuditAnchor) (cs : List Commit) (s s' : Progress)
      → check_commits sha256 pager anchor cs s ≡ ok s'
      → Chained s.prev_chain s.expected_version cs s'.prev_chain s'.expected_version
  unfolding check_commits
  check_commits→Chained anchor [] s s' e = (cc, cc)
  check_commits→Chained anchor (c ∷ cs) s s' e =
      let (s1, first, rest) = bind-eq-ok (check_commit sha256 pager anchor c s) _ e in
      let k = check_commit→Checked anchor c s s1 first in
      let more = check_commits→Chained anchor cs s1 s' rest in
      (
        check_links→Linked c s.prev_chain s.expected_version k.version k.links,
        rw (k.next_chain, k.next_version) more,
      )

  pub Chained→check_commits :
      (cs : List Commit) (prev_chain chain_hash : List ℕ) (v version : ℕ) (seen : Bool)
      → Chained prev_chain v cs chain_hash version
      → check_commits sha256 pager none cs
          (record { prev_chain = prev_chain; expected_version = v; anchor_seen = seen })
        ≡ ok (record { prev_chain = chain_hash; expected_version = version; anchor_seen = seen })
  unfolding check_commits check_commit check_anchor
  Chained→check_commits [] prev_chain chain_hash v version seen c = cc
  Chained→check_commits ((pid, h) ∷ cs) prev_chain chain_hash v version seen (l, c) =
      let numbered : (h.version == v + 1) ≡ true = ground (arith, l.version) in
      rw (numbered, Linked→check_links (pid, h) prev_chain v l)
        (Chained→check_commits cs h.chain_hash chain_hash (v + 1) version seen c)
