-- ===== src/Commit.antt =====
-- commit.rs: commit pages, the hash chain, recovery on opening, and the audit. A branch name is its
-- UTF-8 bytes. SHA-256 is the parameter `sha256`, of all the bytes that a hasher is fed.
pub mod Header
pub mod Log
pub mod Recovery
pub mod Verify
use Prim.Native.String.{String}
use arkeion.Common.{
  ℕ, zero, suc, ◌+◌, ◌-◌, ◌*◌, ◌%◌, ◌^◌, bit_and, Bool, true, false, not, ◌&&◌, ◌||◌, Option, none,
  some, List, [], ◌∷◌, ◌++◌, length, replicate, ltb, leb, ◌==◌, if◌then◌else◌,
}
use mathlib.Core.List.{reverse}
use arkeion.Common.Words.{le_bytes, from_le}
use arkeion.Common.Fields.{Writes, write_all, slice, eq_bytes}
use arkeion.Record.{is_utf8}
use arkeion.Format.{magic_header, magic_commit, first_data_page, le_u32, le_u64, MetaSlot}
use arkeion.Error.{chain_broken, Result, ok, err, ◌>>=◌, ◌>>◌, ok_or}

abbrev pub branch_max : ℕ
branch_max = 64

abbrev pub commit_flag_checkpoint : ℕ
commit_flag_checkpoint = 1

pub record CommitHeader : Type 0 where
  pub flags : ℕ
  pub version : ℕ
  pub parent_page : ℕ
  pub prev_page : ℕ
  pub timestamp_ms : ℕ
  pub data_root : ℕ
  pub meta_root : ℕ
  pub nonce_counter : ℕ
  pub pages_written : ℕ
  pub branch : List ℕ
  pub content_hash : List ℕ
  pub prev_chain : List ℕ
  pub chain_hash : List ℕ

-- The writes of `encode_into`, in order; the field of the branch is cleared and then written.
abbrev pub commit_writes : CommitHeader → Writes
commit_writes h =
    (0, magic_commit)
    ∷ (8, le_bytes 4 h.flags)
    ∷ (12, replicate 4 0)
    ∷ (16, le_bytes 8 h.version)
    ∷ (24, le_bytes 8 h.parent_page)
    ∷ (32, le_bytes 8 h.prev_page)
    ∷ (40, le_bytes 8 h.timestamp_ms)
    ∷ (48, le_bytes 8 h.data_root)
    ∷ (56, le_bytes 8 h.meta_root)
    ∷ (64, le_bytes 8 h.nonce_counter)
    ∷ (72, le_bytes 8 h.pages_written)
    ∷ (80, replicate branch_max 0)
    ∷ (80, h.branch)
    ∷ (144, h.content_hash)
    ∷ (176, h.prev_chain)
    ∷ (208, h.chain_hash)
    ∷ []

unfoldable pub encode_commit : CommitHeader → List ℕ → List ℕ
encode_commit h body = write_all body (commit_writes h)

-- The bytes before the first zero, or all.
unfoldable pub until_zero : List ℕ → List ℕ
until_zero [] = []
until_zero (b ∷ bs) = if b == 0 then [] else b ∷ until_zero bs

unfoldable pub decode_commit : List ℕ → Option CommitHeader
decode_commit body =
    if not (eq_bytes (slice body 0 8) magic_commit)
    then none
    else if not (is_utf8 (until_zero (slice body 80 144)))
    then none
    else some (record {
      flags = le_u32 body 8;
      version = le_u64 body 16;
      parent_page = le_u64 body 24;
      prev_page = le_u64 body 32;
      timestamp_ms = le_u64 body 40;
      data_root = le_u64 body 48;
      meta_root = le_u64 body 56;
      nonce_counter = le_u64 body 64;
      pages_written = le_u64 body 72;
      branch = until_zero (slice body 80 144);
      content_hash = slice body 144 176;
      prev_chain = slice body 176 208;
      chain_hash = slice body 208 240;
    })

-- The branch in its field, filled up with zeros.
abbrev pub branch_field : List ℕ → List ℕ
branch_field branch = branch ++ replicate (branch_max - length branch) 0

-- What recovery and the audit ask of the pager: the body of a page whose tag validates.
pub record Pager : Type 0 where
  pub read_page : ℕ → Option (List ℕ)
  pub n_pages : ℕ
  pub file_id : List ℕ
  pub meta_slots : List MetaSlot

pub record Head : Type 0 where
  pub version : ℕ
  pub commit_page : ℕ
  pub data_root : ℕ
  pub meta_root : ℕ
  pub chain_hash : List ℕ
  pub nonce_counter : ℕ
  pub n_pages : ℕ

unfoldable pub head_from : CommitHeader → ℕ → Head
head_from h page = record {
  version = h.version;
  commit_page = page;
  data_root = h.data_root;
  meta_root = h.meta_root;
  chain_hash = h.chain_hash;
  nonce_counter = h.nonce_counter;
  n_pages = page + 1;
}

-- `meta_for`: the meta slot that goes with a head.
unfoldable pub meta_for : Head → MetaSlot
meta_for head = record {
  version = head.version;
  last_commit_page = head.commit_page;
  n_pages = head.n_pages;
}

-- `sort_by_key` by falling version; equal versions keep their order.
pub insert_slot : MetaSlot → List MetaSlot → List MetaSlot
insert_slot m [] = m ∷ []
insert_slot m (x ∷ xs) = if leb x.version m.version then m ∷ x ∷ xs else x ∷ insert_slot m xs

pub sort_slots : List MetaSlot → List MetaSlot
sort_slots [] = []
sort_slots (m ∷ ms) = insert_slot m (sort_slots ms)

pub record AuditReport : Type 0 where
  pub head : ℕ
  pub commits : ℕ
  pub chain_ok : Bool
  pub chain_hash : List ℕ

pub record AuditAnchor : Type 0 where
  pub version : ℕ
  pub chain_hash : List ℕ

-- `AuditReport::anchor`
unfoldable pub anchor : AuditReport → AuditAnchor
anchor r = record { version = r.head; chain_hash = r.chain_hash }

abbrev pub broken {ℓ} : {A : Type ℓ} → ℕ → String → Result A
broken version reason = err (chain_broken version reason)

unfoldable pub is_checkpoint : CommitHeader → Bool
is_checkpoint h = not (bit_and h.flags commit_flag_checkpoint == 0)

module _ (sha256 : List ℕ → List ℕ) where
  -- The bytes that the hash of the chain covers.
  unfoldable pub chain_input : CommitHeader → List ℕ
  chain_input h =
      h.prev_chain
      ++ (h.content_hash
          ++ (le_bytes 8 h.version
              ++ (le_bytes 8 h.timestamp_ms
                  ++ (le_bytes 8 h.data_root
                      ++ (le_bytes 8 h.meta_root ++ branch_field h.branch)))))

  unfoldable pub compute_chain : CommitHeader → List ℕ
  compute_chain h = sha256 (chain_input h)

  unfoldable pub self_consistent : CommitHeader → Bool
  self_consistent h = eq_bytes h.chain_hash (compute_chain h)

  unfoldable pub genesis_chain : List ℕ → List ℕ
  genesis_chain file_id = sha256 (magic_header ++ file_id)

  unfoldable pub genesis_head : List ℕ → Head
  genesis_head file_id = record {
    version = 0;
    commit_page = 0;
    data_root = 0;
    meta_root = 0;
    chain_hash = genesis_chain file_id;
    nonce_counter = 0;
    n_pages = first_data_page;
  }

  -- A commit is adopted that links to the head, or the checkpoint that starts a compacted file.
  unfoldable pub adopts : Head → CommitHeader → Bool
  adopts head h =
      (h.version == head.version + 1 && eq_bytes h.prev_chain head.chain_hash
        || head.commit_page == 0 && is_checkpoint h && eq_bytes h.prev_chain head.chain_hash)
      && self_consistent h

  module _ (pager : Pager) where
    unfoldable pub try_head_at : ℕ → Option Head
    try_head_at page = elim (pager.read_page page) [
      | none ↦ none
      | some body ↦ elim (decode_commit body) [
        | none ↦ none
        | some h ↦ if not (self_consistent h) then none else some (head_from h page)
      ]
    ]

    -- The first candidate that is a valid commit.
    pub find_head : List MetaSlot → Head → Head
    find_head [] genesis = genesis
    find_head (m ∷ ms) genesis =
        if leb first_data_page m.last_commit_page
        then (elim (try_head_at m.last_commit_page) [
          | some head ↦ head
          | none ↦ find_head ms genesis
        ])
        else find_head ms genesis

    -- The forward scan over `rounds` pages from `pid` on.
    pub scan : ℕ → ℕ → Head → Head
    scan zero pid head = head
    scan (suc rounds) pid head = elim (pager.read_page pid) [
      | none ↦ head
      | some body ↦ elim (decode_commit body) [
        | none ↦ scan rounds (pid + 1) head
        | some h ↦ elim (adopts head h) [
          | true ↦ scan rounds (pid + 1) (head_from h pid)
          | false ↦ head
        ]
      ]
    ]

    pub recover : Head
    recover =
        let head = find_head (sort_slots pager.meta_slots) (genesis_head pager.file_id) in
        scan (pager.n_pages - head.n_pages) head.n_pages head
