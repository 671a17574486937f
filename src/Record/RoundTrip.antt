-- ===== src/Record/RoundTrip.antt =====
-- Whole records: the two passes of the encoder as one expression, and decoding after encoding.
use arkeion.Common.{
  ℕ, suc, ◌+◌, ◌≡◌, refl, sym, ap, arith, List, [], ◌∷◌, ◌++◌, map, append-nil, append_assoc,
  length, length-append, All, get_or, get_or-get_elem?, ==_refl,
}
use mathlib.Core.Path.{subst}
use arkeion.Common.Cursor.{At, At-start, At-append, At-cons, At-get_elem?, At-length, At-get_range?}
use arkeion.Format.{put_varint}
use arkeion.Format.Varint.{take_varint-put_varint}
use arkeion.Error.{Result, ok}
use arkeion.Record.{
  Value, null, add_usize, tag_of, encode_payload, tags_pass, payloads_pass, encode_resolved,
  encode_values, decode_payloads, decode_tags, decode_values,
}
use arkeion.Record.Payload.{IsValue, IsBuffer, decode_payload-encode_payload}

abbrev payloads : List Value → List ℕ
payloads [] = []
payloads (v ∷ vs) = encode_payload v ++ payloads vs

-- A record: the count of columns, a tag for each, then the payloads.
abbrev pub record_bytes : List Value → List ℕ
record_bytes vs = put_varint (length vs) ++ (map tag_of vs ++ payloads vs)

column : List Value → ℕ → Result Value
column all i = ok (get_or all i null)

column-At : (all vs : List Value) (v : Value) (i : ℕ) → At all i (v ∷ vs) → column all i ≡ ok v
unfolding column
column-At all vs v i at = ap ok (get_or-get_elem? all i null v (At-get_elem? all v vs i at))

tags_pass_lem :
    (all vs : List Value) (i : ℕ)
    → At all i vs
    → tags_pass (column all) (length vs) i ≡ ok (map tag_of vs)
unfolding tags_pass
tags_pass_lem all [] i at = refl
tags_pass_lem all (v ∷ vs) i at =
    rw (column-At all vs v i at, tags_pass_lem all vs (i + 1) (At-cons all v vs i at))

payloads_pass_lem :
    (all vs : List Value) (i : ℕ)
    → At all i vs
    → payloads_pass (column all) (length vs) i ≡ ok (payloads vs)
unfolding payloads_pass
payloads_pass_lem all [] i at = refl
payloads_pass_lem all (v ∷ vs) i at =
    rw (column-At all vs v i at, payloads_pass_lem all vs (i + 1) (At-cons all v vs i at))

-- Encode_values does not fail, and writes the count of the columns, their tags and their
-- payloads, in this order.
pub encode_values_lem : (vs : List Value) → encode_values vs ≡ ok (record_bytes vs)
unfolding encode_values encode_resolved column
encode_values_lem vs =
    rw (tags_pass_lem vs vs 0 (At-start vs), payloads_pass_lem vs vs 0 (At-start vs))

length-map-tag_of : (vs : List Value) → length (map tag_of vs) ≡ length vs
length-map-tag_of [] = refl
length-map-tag_of (v ∷ vs) = ap suc (length-map-tag_of vs)

decode_payloads-payloads :
    (buf rest : List ℕ) (pos : ℕ) (vs : List Value)
    → IsBuffer buf
    → All IsValue vs
    → At buf pos (payloads vs ++ rest)
    → decode_payloads buf pos (map tag_of vs) ≡ ok (vs, pos + length (payloads vs))
unfolding decode_payloads
decode_payloads-payloads buf rest pos [] small h at = ap (λ p. ok ([], p)) (omega arith)
decode_payloads-payloads buf rest pos (v ∷ vs) small h at =
    let p = encode_payload v in
    let here : At buf pos (p ++ (payloads vs ++ rest)) =
      rw (append_assoc p (payloads vs) rest) at at in
    let after = At-append buf p (payloads vs ++ rest) pos here in
    let end : pos + length p + length (payloads vs) ≡ pos + length (p ++ payloads vs) =
      omega (arith, length-append p (payloads vs)) in
    rw (
      decode_payload-encode_payload buf (payloads vs ++ rest) pos v small h.0 here,
      decode_payloads-payloads buf rest (pos + length p) vs small h.1 after,
      end,
    )

-- The head of a record.
decode_tags-head :
    (buf tags rest : List ℕ)
    → IsBuffer buf
    → At buf 0 (put_varint (length tags) ++ (tags ++ rest))
    → let p = 0 + length (put_varint (length tags)) in
      (decode_tags buf ≡ ok (tags, p + length tags)) × At buf (p + length tags) rest
unfolding decode_tags
decode_tags-head buf tags rest small at =
    let n = put_varint (length tags) in
    let after = At-append buf n (tags ++ rest) 0 at in
    let room = At-length buf (tags ++ rest) (0 + length n) after in
    let total = length-append tags rest in
    let end : add_usize (0 + length n) (length tags) ≡ 0 + length n + length tags =
      omega (arith, room, total) in
    (
      rw (
        take_varint-put_varint buf (tags ++ rest) 0 (length tags) (omega (arith, room, total)) at,
        At-get_range? buf tags rest (0 + length n) (add_usize (0 + length n) (length tags)) after
            end,
        end,
      ),
      At-append buf tags rest (0 + length n) after,
    )

decode_values-record_bytes :
    (vs : List Value)
    → IsBuffer (record_bytes vs)
    → All IsValue vs
    → decode_values (record_bytes vs) ≡ ok vs
unfolding decode_values
decode_values-record_bytes vs small h =
    let buf = record_bytes vs in
    let tags = map tag_of vs in
    let width = length-map-tag_of vs in
    let start : At buf 0 (put_varint (length tags) ++ (tags ++ payloads vs)) =
      rw width (At-start buf) in
    let p : ℕ = 0 + length (put_varint (length tags)) + length tags in
    let (head, after) = decode_tags-head buf tags (payloads vs) small start in
    let whole = At-length buf (payloads vs) p after in
    let body : At buf p (payloads vs ++ []) = rw (append-nil (payloads vs)) after in
    rw (head, decode_payloads-payloads buf [] p vs small h body, whole, ==_refl (length buf))

-- A row of valid values that `encode_values` writes to a buffer of less than 2^63 bytes is read
-- back by `decode_values`.
pub decode_values-encode_values :
    (vs : List Value) (buf : List ℕ)
    → encode_values vs ≡ ok buf
    → IsBuffer buf
    → All IsValue vs
    → decode_values buf ≡ ok vs
decode_values-encode_values vs buf e small h =
    let same : record_bytes vs ≡ buf = cc (encode_values_lem vs) in
    subst (λ b. decode_values b ≡ ok vs) same
      (decode_values-record_bytes vs (subst (λ b. IsBuffer b) (sym same) small) h)
