-- ===== src/Tests/Commit.antt =====
-- A file with one data page and one commit, and the theorems on commit.rs at it.
use arkeion.Common.{
  ℕ, zero, suc, ◌+◌, ◌*◌, ◌≤◌, ◌<◌, ◌≡◌, refl, sym, ap, ◌∙◌, inl, arith, true, none, some, List, [],
  ◌∷◌, All, length, get_elem?, replicate,
}
use arkeion.Common.Words.{le_bytes}
use mathlib.Core.Path.{subst}
use mathlib.Core.Option.{some-injective}
use arkeion.Common.Fields.{slice, write_all, write_at}
use arkeion.Error.{Result, ok}
use arkeion.Format.{first_data_page}
use arkeion.Record.{is_utf8}
use arkeion.Commit.{
  CommitHeader, encode_commit, decode_commit, Pager, Head, head_from, genesis_head, genesis_chain,
  compute_chain, chain_input, recover, self_consistent, AuditReport, anchor, try_head_at,
  is_checkpoint, until_zero,
}
use arkeion.Commit.Header.{CommitFits, decode_commit-encode_commit}
use arkeion.Commit.Log.{Links, Log, here, data_page, commit_page, Torn, unreadable}
use arkeion.Commit.Recovery.{Start, Hint, recover-reaches, recover-last}
use arkeion.Commit.Verify.{
  Commit, read_pages, walk, version_before, check_anchor, check_links, check_commit, check_commits,
  check_seen, check_end, audit, verify_anchored, verify,
}
use arkeion.Commit.Verify.Walk.{walk-ends, walk-never_ends}
use arkeion.Commit.Verify.Audit.{Audited, verify_anchored-Audited, verify_complete}

-- A stand-in for the hash: the count and the sum of the bytes.
abbrev sum : List ℕ → ℕ
sum [] = 0
sum (b ∷ bs) = b + sum bs

abbrev digest : List ℕ → List ℕ
digest bytes = le_bytes 32 (length bytes + 65536 * sum bytes)

abbrev data_body : List ℕ
data_body = replicate 240 1

abbrev unsealed : CommitHeader
unsealed = record {
  flags = 0;
  version = 1;
  parent_page = 0;
  prev_page = 0;
  timestamp_ms = 1000;
  data_root = 3;
  meta_root = 0;
  nonce_counter = 2;
  pages_written = 2;
  branch = 109 ∷ 97 ∷ 105 ∷ 110 ∷ [];
  content_hash = digest data_body;
  prev_chain = genesis_chain digest (replicate 16 5);
  chain_hash = [];
}

abbrev sealed : CommitHeader
sealed = record unsealed { chain_hash = compute_chain digest unsealed }

abbrev commit_body : List ℕ
commit_body = encode_commit sealed (replicate 240 7)

abbrev pages : List (List ℕ)
pages = data_body ∷ data_body ∷ data_body ∷ data_body ∷ commit_body ∷ []

-- The second meta slot is one of a commit that the file does not have.
abbrev file : Pager
file = record {
  read_page = get_elem? pages;
  n_pages = 6;
  file_id = replicate 16 5;
  meta_slots =
      record { version = 1; last_commit_page = 4; n_pages = 5 }
      ∷ record { version = 2; last_commit_page = 9; n_pages = 10 }
      ∷ [];
}

sealed-CommitFits : CommitFits sealed
unfolding is_utf8 le_bytes genesis_chain compute_chain chain_input
sealed-CommitFits = record {
  flags = omega arith;
  version = omega arith;
  parent_page = omega arith;
  prev_page = omega arith;
  timestamp_ms = omega arith;
  data_root = omega arith;
  meta_root = omega arith;
  nonce_counter = omega arith;
  pages_written = omega arith;
  content_hash = refl;
  prev_chain = refl;
  chain_hash = refl;
  branch_length = omega arith;
  branch_utf8 = refl;
  branch_nonzero = (omega arith, (omega arith, (omega arith, (omega arith, tt))));
}

decode_commit-encode_commit_example :
    decode_commit (encode_commit sealed (replicate 240 7)) ≡ some sealed
decode_commit-encode_commit_example =
    decode_commit-encode_commit sealed (replicate 240 7) sealed-CommitFits (omega arith)

data_body-decode : decode_commit data_body ≡ none
unfolding decode_commit slice
data_body-decode = refl

sealed-Links : Links digest (genesis_head digest (replicate 16 5)) sealed
unfolding genesis_head compute_chain chain_input
sealed-Links = (inl refl, refl, refl)

abbrev last : Head
last = head_from sealed 4

genesis-last : Log digest file first_data_page (genesis_head digest file.file_id) 5 last
genesis-last =
    data_page data_body refl data_body-decode
      (commit_page commit_body sealed refl decode_commit-encode_commit_example sealed-Links here)

sealed-head : try_head_at digest file 4 ≡ some last
unfolding try_head_at self_consistent head_from le_bytes genesis_chain compute_chain chain_input
    decode_commit encode_commit slice write_all write_at is_utf8 until_zero
sealed-head = refl

hints : All (Hint digest file 5) file.meta_slots
unfolding Hint try_head_at head_from
hints = (
  λ h first t.
      let same : last ≡ h = some-injective last h (sym sealed-head ∙ t) in
      subst
        (λ g.
          (g.n_pages ≤ 5)
          × Log digest file first_data_page (genesis_head digest file.file_id) g.n_pages g)
        same (omega arith, genesis-last),
  (λ h first t. cc, tt),
)

recover-last_example : recover digest file ≡ last
recover-last_example =
    recover-last digest file 5 last genesis-last (unreadable refl) (omega arith) hints

recover-reaches_example :
    (start : Head) × (end : ℕ) × Start digest file start
    × Log digest file start.n_pages start end (recover digest file)
    × Torn digest file end (recover digest file)
recover-reaches_example = recover-reaches digest file

abbrev report : AuditReport
report = record { head = 1; commits = 1; chain_ok = true; chain_hash = sealed.chain_hash }

verify_file : verify_anchored digest 5 file last (some (anchor report)) ≡ some (ok report)
unfolding head_from verify_anchored walk audit version_before check_commits check_commit check_links
    check_anchor check_end check_seen read_pages is_checkpoint le_bytes genesis_chain compute_chain
    chain_input decode_commit encode_commit slice write_all write_at is_utf8 until_zero anchor
verify_file = refl

verify_file_alone : verify_anchored digest 5 file last none ≡ some (ok report)
unfolding head_from verify_anchored walk audit version_before check_commits check_commit check_links
    check_anchor check_end check_seen read_pages is_checkpoint le_bytes genesis_chain compute_chain
    chain_input decode_commit encode_commit slice write_all write_at is_utf8 until_zero
verify_file_alone = refl

verify_anchored-Audited_example : Audited digest file last (some (anchor report)) report
verify_anchored-Audited_example =
    verify_anchored-Audited digest file 5 last (some (anchor report)) report verify_file

verify_complete_example : (fuel : ℕ) × (verify digest fuel file last ≡ some (ok report))
verify_complete_example =
    verify_complete digest file last report
      (verify_anchored-Audited digest file 5 last none report verify_file_alone)

data_body-no_commit {ℓ} :
    {A : Type ℓ} (body : List ℕ) (h : CommitHeader)
    → some data_body ≡ some body
    → decode_commit body ≡ some h
    → A
data_body-no_commit body h r d =
    let same : data_body ≡ body = cc in
    let none_is_some : none ≡ some h = sym data_body-decode ∙ ap decode_commit same ∙ d in cc

file-back :
    (page : ℕ) (body : List ℕ) (h : CommitHeader)
    → file.read_page page ≡ some body
    → decode_commit body ≡ some h
    → h.prev_page < page
file-back zero body h r d = data_body-no_commit body h r d
file-back (suc zero) body h r d = data_body-no_commit body h r d
file-back (suc (suc zero)) body h r d = data_body-no_commit body h r d
file-back (suc (suc (suc zero))) body h r d = data_body-no_commit body h r d
file-back (suc (suc (suc (suc zero)))) body h r d =
    let read : commit_body ≡ body = some-injective commit_body body r in
    let same : sealed ≡ h =
      some-injective sealed h
        (sym decode_commit-encode_commit_example ∙ ap decode_commit read ∙ d) in
    subst (λ g. g.prev_page < 4) same (omega arith)
file-back (suc (suc (suc (suc (suc page))))) body h r d = absurd cc

walk-ends_example : (r : Result (List Commit)) × (walk file 4 1 4 [] ≡ some r)
walk-ends_example = walk-ends file file-back 4 1 4 [] (omega arith)

-- A commit on page 1 that links to itself.
abbrev looped : CommitHeader
looped = record sealed { prev_page = 1 }

abbrev looped_body : List ℕ
looped_body = encode_commit looped (replicate 240 0)

abbrev looped_file : Pager
looped_file = record file { read_page = get_elem? (data_body ∷ looped_body ∷ []) }

looped-decode : decode_commit looped_body ≡ some looped
unfolding decode_commit encode_commit le_bytes slice write_all write_at is_utf8 until_zero
    genesis_chain compute_chain chain_input
looped-decode = refl

walk-never_ends_example : walk looped_file 1000 1 1 [] ≡ none
walk-never_ends_example =
    walk-never_ends looped_file 0 looped_body looped refl looped-decode refl 1000 1 []
