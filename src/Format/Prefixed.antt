-- ===== src/Format/Prefixed.antt =====
-- A length and as many bytes, as records and nodes hold them. A `usize` addition wraps, as in a
-- build without overflow checks.
use arkeion.Common.{
  ℕ, ◌+◌, ◌%◌, ◌^◌, ◌<◌, ◌≡◌, arith, some, List, ◌++◌, append_assoc, length, length-append,
}
use arkeion.Common.Cursor.{At, At-append, At-length, At-get_range?, get_range?}
use arkeion.Format.{put_varint, take_varint}
use arkeion.Format.Varint.{take_varint-put_varint}

abbrev pub add_usize : ℕ → ℕ → ℕ
add_usize a b = (a + b) % 2 ^ 64

-- No allocation passes `isize::MAX` bytes.
abbrev pub IsBuffer : List ℕ → Type 0
IsBuffer buf = length buf < 2 ^ 63

-- A length, then as many bytes.
pub take_prefixed :
    (buf rest xs : List ℕ) (pos : ℕ)
    → IsBuffer buf
    → At buf pos ((put_varint (length xs) ++ xs) ++ rest)
    → let p = pos + length (put_varint (length xs)) in
      (take_varint buf pos ≡ some (length xs, p))
      × (get_range? buf p (add_usize p (length xs)) ≡ some xs)
      × (add_usize p (length xs) ≡ pos + length (put_varint (length xs) ++ xs))
take_prefixed buf rest xs pos small at =
    let n = put_varint (length xs) in
    let here : At buf pos (n ++ (xs ++ rest)) = rw (append_assoc n xs rest) at at in
    let after = At-append buf n (xs ++ rest) pos here in
    let room = At-length buf (xs ++ rest) (pos + length n) after in
    let total = length-append xs rest in
    (
      take_varint-put_varint buf (xs ++ rest) pos (length xs) (omega (arith, room, total)) here,
      At-get_range? buf xs rest (pos + length n) (add_usize (pos + length n) (length xs)) after
          (omega (arith, room, total)),
      omega (arith, room, total, length-append n xs),
    )
