-- ===== src/Commit/Header.antt =====
-- A commit header is read back from the page that it was written into.
use arkeion.Common.{
  ℕ, zero, suc, ◌-◌, ◌≤◌, ◌≡◌, ◌≢◌, refl, ap, ◌∙◌, arith, true, some, List, [], ◌∷◌, ◌++◌, length,
  length-append, length-replicate, replicate, drop-replicate, All,
}
use arkeion.Common.Words.{le_bytes, length-le_bytes, IsU32, IsU64}
use arkeion.Common.Fields.{
  Writes, write_at, write_all, Contiguous, slice-write_all, write_at_over, length-write_all,
}
use arkeion.Format.{magic_commit}
use arkeion.Format.Layout.{read_word}
use arkeion.Record.{is_utf8}
use arkeion.Commit.{
  CommitHeader, branch_max, branch_field, encode_commit, decode_commit, until_zero,
}

-- The fields have the widths of the struct, and the branch has a name that fits its field.
pub record CommitFits (h : CommitHeader) : Type 0 where
  pub flags : IsU32 h.flags
  pub version : IsU64 h.version
  pub parent_page : IsU64 h.parent_page
  pub prev_page : IsU64 h.prev_page
  pub timestamp_ms : IsU64 h.timestamp_ms
  pub data_root : IsU64 h.data_root
  pub meta_root : IsU64 h.meta_root
  pub nonce_counter : IsU64 h.nonce_counter
  pub pages_written : IsU64 h.pages_written
  pub content_hash : length h.content_hash ≡ 32
  pub prev_chain : length h.prev_chain ≡ 32
  pub chain_hash : length h.chain_hash ≡ 32
  pub branch_length : length h.branch ≤ branch_max
  pub branch_utf8 : is_utf8 h.branch ≡ true
  pub branch_nonzero : All (λ b. b ≢ 0) h.branch

front : CommitHeader → Writes
front h =
    (0, magic_commit)
    ∷ (8, le_bytes 4 h.flags)
    ∷ (12, replicate 4 0)
    ∷ (16, le_bytes 8 h.version)
    ∷ (24, le_bytes 8 h.parent_page)
    ∷ (32, le_bytes 8 h.prev_page)
    ∷ (40, le_bytes 8 h.timestamp_ms)
    ∷ (48, le_bytes 8 h.data_root)
    ∷ (56, le_bytes 8 h.meta_root)
    ∷ (64, le_bytes 8 h.nonce_counter)
    ∷ (72, le_bytes 8 h.pages_written)
    ∷ []

back : CommitHeader → Writes
back h = (144, h.content_hash) ∷ (176, h.prev_chain) ∷ (208, h.chain_hash) ∷ []

-- The same page, each byte written once.
layout : CommitHeader → Writes
unfolding front back
layout h = front h ++ ((80, branch_field h.branch) ∷ back h)

front-Contiguous : (h : CommitHeader) → Contiguous 0 (front h) 80
unfolding front
front-Contiguous h = omega (
  arith,
  length-le_bytes 4 h.flags,
  length-le_bytes 8 h.version,
  length-le_bytes 8 h.parent_page,
  length-le_bytes 8 h.prev_page,
  length-le_bytes 8 h.timestamp_ms,
  length-le_bytes 8 h.data_root,
  length-le_bytes 8 h.meta_root,
  length-le_bytes 8 h.nonce_counter,
  length-le_bytes 8 h.pages_written,
)

length-branch_field : (h : CommitHeader) → CommitFits h → length (branch_field h.branch) ≡ 64
length-branch_field h w = omega (
  arith,
  length-append h.branch (replicate (branch_max - length h.branch) 0),
  length-replicate {A = ℕ} (branch_max - length h.branch) 0,
  w.branch_length,
)

layout-Contiguous : (h : CommitHeader) → CommitFits h → Contiguous 0 (layout h) 240
unfolding layout
layout-Contiguous h w = omega (
  arith,
  front-Contiguous h,
  length-branch_field h w,
  w.content_hash,
  w.prev_chain,
  w.chain_hash,
  length-le_bytes 4 h.flags,
  length-le_bytes 8 h.version,
  length-le_bytes 8 h.parent_page,
  length-le_bytes 8 h.prev_page,
  length-le_bytes 8 h.timestamp_ms,
  length-le_bytes 8 h.data_root,
  length-le_bytes 8 h.meta_root,
  length-le_bytes 8 h.nonce_counter,
  length-le_bytes 8 h.pages_written,
)

encode_commit-layout :
    (h : CommitHeader) (body : List ℕ)
    → CommitFits h
    → 240 ≤ length body
    → encode_commit h body ≡ write_all body (layout h)
unfolding encode_commit write_all layout
encode_commit-layout h body w long =
    let z : List ℕ = replicate branch_max 0 in
    let start : List ℕ = write_all body (front h) in
    let room = length-write_all body (front h) 80 (front-Contiguous h) (omega arith) in
    ap (λ b. write_all b (back h))
      (write_at_over start z h.branch 80 w.branch_length (omega (arith, room))
        ∙ ap (λ l. write_at start 80 (h.branch ++ l))
            (drop-replicate (length h.branch) branch_max 0))

until_zero-append :
    (branch : List ℕ) (n : ℕ)
    → All (λ b. b ≢ 0) branch
    → until_zero (branch ++ replicate n 0) ≡ branch
unfolding until_zero
until_zero-append [] zero h = refl
until_zero-append [] (suc n) h = refl
until_zero-append (b ∷ bs) n h = ground (arith, h.0, until_zero-append bs n h.1)

-- A commit header whose fields fit is read back from any body of at least 240 bytes that it was
-- written into.
pub decode_commit-encode_commit :
    (h : CommitHeader) (body : List ℕ)
    → CommitFits h
    → 240 ≤ length body
    → decode_commit (encode_commit h body) ≡ some h
unfolding decode_commit layout front back
decode_commit-encode_commit h body w long =
    let ws = layout h in
    let c = layout-Contiguous h w in
    let e = length-branch_field h w in
    rw (
      encode_commit-layout h body w long,
      slice-write_all body ws 240 0 0 8 magic_commit c long refl refl,
      read_word body ws 240 1 8 4 h.flags c long refl w.flags,
      read_word body ws 240 3 16 8 h.version c long refl w.version,
      read_word body ws 240 4 24 8 h.parent_page c long refl w.parent_page,
      read_word body ws 240 5 32 8 h.prev_page c long refl w.prev_page,
      read_word body ws 240 6 40 8 h.timestamp_ms c long refl w.timestamp_ms,
      read_word body ws 240 7 48 8 h.data_root c long refl w.data_root,
      read_word body ws 240 8 56 8 h.meta_root c long refl w.meta_root,
      read_word body ws 240 9 64 8 h.nonce_counter c long refl w.nonce_counter,
      read_word body ws 240 10 72 8 h.pages_written c long refl w.pages_written,
      slice-write_all body ws 240 11 80 144 (branch_field h.branch) c long refl (omega (arith, e)),
      slice-write_all body ws 240 12 144 176 h.content_hash c long refl
          (omega (arith, w.content_hash)),
      slice-write_all body ws 240 13 176 208 h.prev_chain c long refl (omega (arith, w.prev_chain)),
      slice-write_all body ws 240 14 208 240 h.chain_hash c long refl (omega (arith, w.chain_hash)),
      until_zero-append h.branch (branch_max - length h.branch) w.branch_nonzero,
      w.branch_utf8,
    )
