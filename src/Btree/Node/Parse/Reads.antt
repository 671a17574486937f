-- ===== src/Btree/Node/Parse/Reads.antt =====
-- What the readers of a node read where a buffer holds what the writers write, and where they stop.
use arkeion.Common.{
  ℕ, ◌+◌, ◌≡◌, refl, ap, ◌∙◌, arith, List, ◌∷◌, ◌++◌, append_assoc, length, length-append,
}
use mathlib.Core.Path.{subst}
use arkeion.Common.Cursor.{At, At-append, At-cons, At-get_elem?, At-length, At-get_range?}
use arkeion.Common.Words.{IsU64, le_bytes, length-le_bytes, from_le-le_bytes}
use arkeion.Format.{put_varint}
use arkeion.Format.Prefixed.{IsBuffer, add_usize}
use arkeion.Format.Varint.{take_varint-put_varint}
use arkeion.Error.{ok}
use arkeion.Btree.Node.{
  Payload, inline, overflow, get_varint, get_slice, get_u64, cell_overflow_flag,
}
use arkeion.Btree.Node.Write.{encode_leaf_cell}
use arkeion.Btree.Node.Write.Cells.{IsPayload}
use arkeion.Btree.Node.Parse.{leaf_key_at, read_leaf_payload}

regroup : (a b c d e : List ℕ) → (a ++ (b ++ (c ++ d))) ++ e ≡ a ++ (b ++ (c ++ (d ++ e)))
regroup a b c d e =
    append_assoc a (b ++ (c ++ d)) e
    ∙ ap (λ (l : List ℕ). a ++ l) (append_assoc b (c ++ d) e)
    ∙ ap (λ (l : List ℕ). a ++ (b ++ l)) (append_assoc c d e)

module _ (page : ℕ) (buf : List ℕ) (small : IsBuffer buf) where
  -- A number, and what follows it.
  pub reads-varint :
      (rest : List ℕ) (pos v : ℕ)
      → IsU64 v
      → At buf pos (put_varint v ++ rest)
      → (get_varint page buf pos ≡ ok (v, pos + length (put_varint v)))
        × At buf (pos + length (put_varint v)) rest
  unfolding get_varint
  reads-varint rest pos v h at = (
    rw (take_varint-put_varint buf rest pos v h at) refl,
    At-append buf (put_varint v) rest pos at,
  )

  -- Bytes of a known count.
  pub reads-slice :
      (xs rest : List ℕ) (pos : ℕ)
      → At buf pos (xs ++ rest)
      → (get_slice page buf pos (length xs) ≡ ok (xs, pos + length xs))
        × At buf (pos + length xs) rest
  unfolding get_slice
  reads-slice xs rest pos at =
      let room = At-length buf (xs ++ rest) pos at in
      let end : add_usize pos (length xs) ≡ pos + length xs =
        omega (arith, room, length-append xs rest) in
      (
        rw (At-get_range? buf xs rest pos (add_usize pos (length xs)) at end, end) refl,
        At-append buf xs rest pos at,
      )

  pub reads-u64 :
      (rest : List ℕ) (pos v : ℕ)
      → IsU64 v
      → At buf pos (le_bytes 8 v ++ rest)
      → (get_u64 page buf pos ≡ ok (v, pos + 8)) × At buf (pos + 8) rest
  unfolding get_u64
  reads-u64 rest pos v h at =
      let (slice, next) = reads-slice (le_bytes 8 v) rest pos at in
      let eight = length-le_bytes 8 v in
      (rw (rw eight at slice, from_le-le_bytes 8 v h) refl, rw eight at next)

  -- A number of bytes and these.
  pub reads-prefixed :
      (xs rest : List ℕ) (pos : ℕ)
      → At buf pos (put_varint (length xs) ++ (xs ++ rest))
      → let p = pos + length (put_varint (length xs)) in
        (get_varint page buf pos ≡ ok (length xs, p))
        × (get_slice page buf p (length xs) ≡ ok (xs, p + length xs))
        × At buf (p + length xs) rest
  reads-prefixed xs rest pos at =
      let p : ℕ = pos + length (put_varint (length xs)) in
      let room = At-length buf (put_varint (length xs) ++ (xs ++ rest)) pos at in
      let fits : IsU64 (length xs) =
        omega (
          arith,
          room,
          length-append (put_varint (length xs)) (xs ++ rest),
          length-append xs rest,
        ) in
      let (number, behind) = reads-varint (xs ++ rest) pos (length xs) fits at in
      let (bytes, next) = reads-slice xs rest p behind in (number, bytes, next)

  -- A leaf's cell: its flags and its key, and then its payload.
  pub record LeafCellRead (key : List ℕ) (payload : Payload) (rest : List ℕ) (pos : ℕ)
      : Type 0 where
    pub flags : ℕ
    pub payload_pos : ℕ
    pub end : ℕ
    pub key_read : leaf_key_at page buf pos ≡ ok (flags, key, payload_pos)
    pub payload_read : read_leaf_payload page buf payload_pos flags ≡ ok (payload, end)
    pub next : At buf end rest

  pub reads-leaf_cell :
      (key : List ℕ) (payload : Payload) (rest : List ℕ) (pos : ℕ)
      → IsPayload payload
      → At buf pos (encode_leaf_cell key payload ++ rest)
      → LeafCellRead key payload rest pos
  unfolding encode_leaf_cell IsPayload leaf_key_at read_leaf_payload
  reads-leaf_cell key (inline v) rest pos h at =
      let tail : List ℕ = put_varint (length v) ++ (v ++ rest) in
      let start : At buf pos (0 ∷ (put_varint (length key) ++ (key ++ tail))) =
        subst (λ (l : List ℕ). At buf pos (0 ∷ l))
          (regroup (put_varint (length key)) key (put_varint (length v)) v rest) at in
      let flag = At-get_elem? buf 0 _ pos start in
      let (number, bytes, behind) = reads-prefixed key tail (pos + 1) (At-cons buf 0 _ pos start) in
      let (vlen, value, next) = reads-prefixed v rest _ behind in
      record {
        flags = 0;
        payload_pos = pos + 1 + length (put_varint (length key)) + length key;
        end = _;
        key_read = rw (flag, number, bytes) refl;
        payload_read = rw (vlen, value) refl;
        next = next;
      }
  reads-leaf_cell key (overflow total_len first) rest pos h at =
      let tail : List ℕ = put_varint total_len ++ (le_bytes 8 first ++ rest) in
      let start : At buf pos (cell_overflow_flag ∷ (put_varint (length key) ++ (key ++ tail))) =
        subst (λ (l : List ℕ). At buf pos (cell_overflow_flag ∷ l))
          (regroup (put_varint (length key)) key (put_varint total_len) (le_bytes 8 first) rest)
          at in
      let flag = At-get_elem? buf cell_overflow_flag _ pos start in
      let (number, bytes, behind) =
        reads-prefixed key tail (pos + 1) (At-cons buf cell_overflow_flag _ pos start) in
      let (total, after) = reads-varint (le_bytes 8 first ++ rest) _ total_len h.0 behind in
      let (chain, next) = reads-u64 rest _ first h.1 after in
      record {
        flags = cell_overflow_flag;
        payload_pos = pos + 1 + length (put_varint (length key)) + length key;
        end = _;
        key_read = rw (flag, number, bytes) refl;
        payload_read = rw (total, chain) refl;
        next = next;
      }
