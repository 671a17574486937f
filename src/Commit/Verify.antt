-- ===== src/Commit/Verify.antt =====
-- `verify` and `verify_anchored` of commit.rs. The backward walk takes fuel; `none` says that the
-- walk has not ended within it.
pub mod Walk
pub mod Links
pub mod Audit
use arkeion.Common.{
  ℕ, zero, suc, ◌+◌, ◌-◌, Bool, true, false, not, ◌&&◌, Option, none, some, List, [], ◌∷◌, ◌++◌,
  length, ltb, ◌==◌, if◌then◌else◌,
}
use mathlib.Core.List.{reverse}
use arkeion.Common.Fields.{eq_bytes}
use arkeion.Error.{Result, ok, err, ◌>>=◌, ◌>>◌}
use arkeion.Commit.{
  CommitHeader, decode_commit, Pager, Head, AuditReport, AuditAnchor, broken, is_checkpoint,
  compute_chain, genesis_chain,
}

-- A commit with the page that it stands on.
abbrev pub Commit : Type 0
Commit = ℕ × CommitHeader

-- The bodies of `count` pages from `start` on, one after the other.
unfoldable pub read_pages : Pager → ℕ → ℕ → Option (List ℕ)
read_pages pager zero start = some []
read_pages pager (suc count) start = elim (pager.read_page start) [
  | none ↦ none
  | some body ↦ elim (read_pages pager count (start + 1)) [
    | none ↦ none
    | some rest ↦ some (body ++ rest)
  ]
]

-- The walk by `prev_page`; `headers` are those collected, the newest first.
unfoldable pub walk : Pager → ℕ → ℕ → ℕ → List Commit → Option (Result (List Commit))
walk pager fuel version zero headers = some (ok headers)
walk pager zero version (suc page) headers = none
walk pager (suc fuel) version (suc page) headers = elim (pager.read_page (suc page)) [
  | none ↦ some (broken (version - length headers) "página de commit ilegible o corrupta")
  | some body ↦ elim (decode_commit body) [
    | none ↦ some (broken (version - length headers) "página de commit mal formada")
    | some h ↦ walk pager fuel version h.prev_page ((suc page, h) ∷ headers)
  ]
]

-- The version that the one before the first commit has: a checkpoint starts its own numbering.
unfoldable pub version_before : List Commit → ℕ
version_before [] = 0
version_before ((pid, h) ∷ headers) = if is_checkpoint h then h.version - 1 else 0

-- What the loop carries from commit to commit.
pub record Progress : Type 0 where
  pub prev_chain : List ℕ
  pub expected_version : ℕ
  pub anchor_seen : Bool

unfoldable pub check_anchor : Option AuditAnchor → CommitHeader → Bool → Result Bool
check_anchor none h seen = ok seen
check_anchor (some a) h seen =
    if h.version == a.version
    then (if not (eq_bytes h.chain_hash a.chain_hash)
        then broken h.version "el ancla no coincide: la historia fue reescrita"
        else ok true)
    else ok seen

-- The anchor must have been met on the way.
unfoldable pub check_seen : Option AuditAnchor → Head → Bool → Result (Unit {0})
check_seen none head seen = ok tt
check_seen (some a) head true = ok tt
check_seen (some a) head false =
    if ltb head.version a.version
    then broken head.version "el ancla apunta a una versión futura: faltan commits"
    else broken a.version "la versión del ancla ya no está (compactada por vacuum)"

unfoldable pub check_end : Option AuditAnchor → Head → ℕ → Progress → Result AuditReport
check_end anchor head commits s =
    if not (s.expected_version == head.version)
    then broken s.expected_version "el recorrido no llega al head"
    else if not (eq_bytes s.prev_chain head.chain_hash)
    then broken head.version "el chain_hash del head no coincide"
    else (check_seen anchor head s.anchor_seen
        >> ok (record {
          head = head.version;
          commits = commits;
          chain_ok = true;
          chain_hash = head.chain_hash;
        }))

module _ (sha256 : List ℕ → List ℕ) where
  -- The checks that link a commit's contents and header to the chain.
  unfoldable pub check_links : Pager → Commit → List ℕ → Result (Unit {0})
  check_links pager (pid, h) prev_chain =
      if ltb pid (h.pages_written - 1)
      then broken h.version "pages_written inválido"
      else elim (read_pages pager (h.pages_written - 1) (pid - (h.pages_written - 1))) [
        | none ↦ broken h.version "página de datos ilegible o corrupta"
        | some bodies ↦
            if not (eq_bytes (sha256 bodies) h.content_hash)
            then broken h.version "content_hash no coincide"
            else if not (eq_bytes h.prev_chain prev_chain)
            then broken h.version "prev_chain no enlaza"
            else if not (eq_bytes h.chain_hash (compute_chain sha256 h))
            then broken h.version "chain_hash inconsistente"
            else ok tt
      ]

  -- One round of the loop over the commits.
  unfoldable pub check_commit : Pager → Option AuditAnchor → Commit → Progress → Result Progress
  check_commit pager anchor (pid, h) s =
      if not (h.version == s.expected_version + 1)
      then broken h.version "versión fuera de secuencia"
      else (check_links pager (pid, h) s.prev_chain
          >> (check_anchor anchor h s.anchor_seen >>= λ seen. ok (record {
            prev_chain = h.chain_hash;
            expected_version = s.expected_version + 1;
            anchor_seen = seen;
          })))

  unfoldable pub check_commits :
      Pager → Option AuditAnchor → List Commit → Progress → Result Progress
  check_commits pager anchor [] s = ok s
  check_commits pager anchor (c ∷ cs) s = do
    s' ← check_commit pager anchor c s
    check_commits pager anchor cs s'

  -- The commits are in order, the first one first.
  unfoldable pub audit : Pager → Head → Option AuditAnchor → List Commit → Result AuditReport
  audit pager head anchor headers = do
    let start : Progress = record {
      prev_chain = genesis_chain sha256 pager.file_id;
      expected_version = version_before headers;
      anchor_seen = false;
    }
    s ← check_commits pager anchor headers start
    check_end anchor head (length headers) s

  unfoldable pub verify_anchored :
      ℕ → Pager → Head → Option AuditAnchor → Option (Result AuditReport)
  verify_anchored fuel pager head anchor = elim (walk pager fuel head.version head.commit_page []) [
    | none ↦ none
    | some walked ↦ some (walked >>= λ headers. audit pager head anchor headers)
  ]

  unfoldable pub verify : ℕ → Pager → Head → Option (Result AuditReport)
  verify fuel pager head = verify_anchored fuel pager head none
