-- ===== src/Btree/Node/Write/Cells.antt =====
-- Writing a cell piece by piece is writing its bytes, and these have the cell's size.
use arkeion.Common.{
  ℕ, zero, suc, ◌+◌, ◌/◌, ◌^◌, ◌≤◌, ◌≡◌, refl, ap, sym, ◌∙◌, arith, inl, inr, Bool-cases, bit_and,
  bit_or, List, [], ◌∷◌, ◌++◌, length, length-append, length-take, length-drop, take, drop,
  take-append-drop, ◌==◌,
}
use mathlib.Core.Path.{ap₂}
use arkeion.Common.Words.{IsU64, le_bytes, length-le_bytes}
use arkeion.Common.Fields.{write_at, write_at-write_at}
use arkeion.Format.{put_varint, put_varint_loop, varint_len}
use arkeion.Format.VarintLen.{length-put_varint}
use arkeion.Btree.Node.{
  cell_overflow_flag, Payload, inline, overflow, LeafCell, InnerCell, payload_size,
  leaf_suffix_cell_size, inner_cell_size,
}
use arkeion.Btree.Node.Write.{
  Cursor, put, put_varint_at_loop, put_varint_at, write_leaf_cell_at, write_inner_cell_at,
  encode_leaf_cell,
}

pub length-write_at :
    (body x : List ℕ) (p : ℕ)
    → p + length x ≤ length body
    → length (write_at body p x) ≡ length body
unfolding write_at
length-write_at body x p h = omega (
  arith,
  length-append (take p body) (x ++ drop (p + length x) body),
  length-append x (drop (p + length x) body),
  length-take p body,
  length-drop (p + length x) body,
)

pub put-put :
    (body x y : List ℕ) (p : ℕ)
    → p + length x + length y ≤ length body
    → put y (put x (body, p)) ≡ put (x ++ y) (body, p)
unfolding put
put-put body x y p h =
    ap₂ (λ (b : List ℕ) (n : ℕ). (b, n)) (write_at-write_at body x y p (p + length x) refl h)
      (omega (arith, length-append x y))

put-nil : (body : List ℕ) (p : ℕ) → put [] (body, p) ≡ (body, p)
unfolding put write_at
put-nil body p =
    let none : p + 0 ≡ p = omega arith in
    ap₂ (λ (b : List ℕ) (n : ℕ). (b, n))
      (ap (λ (n : ℕ). take p body ++ drop n body) none ∙ take-append-drop p body) none

put_varint_at_loop-put :
    (rounds v p : ℕ) (body : List ℕ)
    → p + length (put_varint_loop rounds v) ≤ length body
    → put_varint_at_loop rounds v (body, p) ≡ put (put_varint_loop rounds v) (body, p)
unfolding put_varint_at_loop put_varint_loop put
put_varint_at_loop-put zero v p body h = sym (put-nil body p)
put_varint_at_loop-put (suc rounds) v p body h = elim (Bool-cases (v / 2 ^ 7 == 0)) [
  | inl t ↦ rw t refl
  | inr f ↦
      let head : List ℕ = bit_or (bit_and v 0x7f) 0x80 ∷ [] in
      let rest : List ℕ = put_varint_loop rounds (v / 2 ^ 7) in
      let fits : p + length (head ++ rest) ≤ length body = rw f at h in
      let same = length-write_at body head p (omega arith) in
      rw f (
        put_varint_at_loop-put rounds (v / 2 ^ 7) (p + 1) (write_at body p head)
          (omega (arith, same))
        ∙ put-put body head rest p (omega arith))
]

pub put_varint_at-put :
    (v p : ℕ) (body : List ℕ)
    → p + length (put_varint v) ≤ length body
    → put_varint_at v (body, p) ≡ put (put_varint v) (body, p)
unfolding put_varint_at put_varint
put_varint_at-put v p body h = put_varint_at_loop-put (suc v) v p body h

-- What a step writes: the bytes `x` at the position, wherever they fit.
unfoldable pub Puts : (Cursor → Cursor) → List ℕ → Type 0
Puts f x = (body : List ℕ) (p : ℕ) → p + length x ≤ length body → f (body, p) ≡ put x (body, p)

pub Puts-put : (x : List ℕ) → Puts (put x) x
unfolding Puts
Puts-put x body p h = refl

pub Puts-varint : (v : ℕ) → Puts (put_varint_at v) (put_varint v)
unfolding Puts
Puts-varint v body p h = put_varint_at-put v p body h

-- One step after another.
pub Puts-append :
    (f g : Cursor → Cursor) (x y : List ℕ) → Puts f x → Puts g y → Puts (λ c. g (f c)) (x ++ y)
unfolding Puts put
Puts-append f g x y pf pg body p h =
    let total = length-append x y in
    let same = length-write_at body x p (omega (arith, total)) in
    ap g (pf body p (omega (arith, total)))
    ∙ pg (write_at body p x) (p + length x) (omega (arith, total, same))
    ∙ put-put body x y p (omega (arith, total))

pub write_leaf_cell_at-Puts :
    (key : List ℕ) (payload : Payload)
    → Puts (write_leaf_cell_at key payload) (encode_leaf_cell key payload)
unfolding write_leaf_cell_at encode_leaf_cell
write_leaf_cell_at-Puts key (inline v) = Puts-append _ _ _ _ (Puts-put (0 ∷ [])) (
    Puts-append _ _ _ _ (Puts-varint (length key)) (
      Puts-append _ _ _ _ (Puts-put key)
        (Puts-append _ _ _ _ (Puts-varint (length v)) (Puts-put v))))
write_leaf_cell_at-Puts key (overflow total_len first) =
    Puts-append _ _ _ _ (Puts-put (cell_overflow_flag ∷ [])) (
      Puts-append _ _ _ _ (Puts-varint (length key)) (
        Puts-append _ _ _ _ (Puts-put key)
          (Puts-append _ _ _ _ (Puts-varint total_len) (Puts-put (le_bytes 8 first)))))

-- The bytes of an inner cell.
unfoldable pub inner_cell_bytes : InnerCell → List ℕ
inner_cell_bytes c = put_varint (length c.key) ++ (c.key ++ le_bytes 8 c.child)

pub write_inner_cell_at-Puts :
    (c : InnerCell) → Puts (write_inner_cell_at c.key c.child) (inner_cell_bytes c)
unfolding write_inner_cell_at inner_cell_bytes
write_inner_cell_at-Puts c =
    Puts-append _ _ _ _ (Puts-varint (length c.key))
      (Puts-append _ _ _ _ (Puts-put c.key) (Puts-put (le_bytes 8 c.child)))

-- The sizes that decide splits are the lengths of the bytes.
unfoldable pub IsPayload : Payload → Type 0
IsPayload (inline v) = IsU64 (length v)
IsPayload (overflow total_len first) = IsU64 total_len × IsU64 first

pub stored_length :
    (key : List ℕ) (payload : Payload)
    → IsU64 (length key)
    → IsPayload payload
    → length (encode_leaf_cell key payload)
      ≡ 1 + varint_len (length key) + length key + payload_size payload
unfolding encode_leaf_cell IsPayload
stored_length key (inline v) hk hp = omega (
  arith,
  length-append (put_varint (length key)) (key ++ (put_varint (length v) ++ v)),
  length-append key (put_varint (length v) ++ v),
  length-append (put_varint (length v)) v,
  length-put_varint (length key) hk,
  length-put_varint (length v) hp,
)
stored_length key (overflow total_len first) hk hp = omega (
  arith,
  length-append (put_varint (length key)) (key ++ (put_varint total_len ++ le_bytes 8 first)),
  length-append key (put_varint total_len ++ le_bytes 8 first),
  length-append (put_varint total_len) (le_bytes 8 first),
  length-le_bytes 8 first,
  length-put_varint (length key) hk,
  length-put_varint total_len hp.0,
)

pub length-encode_leaf_cell :
    (c : LeafCell) (plen : ℕ)
    → IsU64 (length c.key)
    → IsPayload c.payload
    → length (encode_leaf_cell (drop plen c.key) c.payload) ≡ leaf_suffix_cell_size c plen
unfolding leaf_suffix_cell_size
length-encode_leaf_cell c plen hk hp =
    let short = length-drop plen c.key in
    stored_length (drop plen c.key) c.payload (omega (arith, short)) hp
    ∙ ap (λ (n : ℕ). 1 + varint_len n + n + payload_size c.payload) short

pub length-inner_cell_bytes :
    (c : InnerCell) → IsU64 (length c.key) → length (inner_cell_bytes c) ≡ inner_cell_size c
unfolding inner_cell_bytes inner_cell_size
length-inner_cell_bytes c h = omega (
  arith,
  length-append (put_varint (length c.key)) (c.key ++ le_bytes 8 c.child),
  length-append c.key (le_bytes 8 c.child),
  length-le_bytes 8 c.child,
  length-put_varint (length c.key) h,
)
