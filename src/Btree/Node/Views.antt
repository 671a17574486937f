-- ===== src/Btree/Node/Views.antt =====
-- btree/node.rs: the reads that lend or skip what stands in a leaf, and the pass over the keys with
-- a prefix. What is lent is modelled by its bytes. The function that a pass calls on each key is a
-- step on its state, which may fail.
pub mod StartsWith
pub mod Matching
pub mod Emit
use arkeion.Common.{
  ℕ, zero, suc, ◌+◌, ◌-◌, Bool, true, false, not, List, ◌++◌, length, drop, leb, bit_and, ◌==◌,
  if◌then◌else◌,
}
use arkeion.Common.Fields.{starts_with}
use arkeion.Error.{Result, ok, ◌>>=◌}
use arkeion.Btree.Node.{
  type_leaf, cell_overflow_flag, bad_page, node_type, ncells_of, get_varint, get_slice, get_u64,
  leaf_prefix_and_start, cell_ptr,
}
use arkeion.Btree.Node.Parse.{leaf_key_at}
use arkeion.Btree.Node.Search.{key_lt, bisect, leaf_test}

unfoldable pub skip_leaf_payload : ℕ → List ℕ → ℕ → ℕ → Result ℕ
skip_leaf_payload page body pos flags =
    if not (bit_and flags cell_overflow_flag == 0)
    then (get_varint page body pos >>= λ (total_len, pos).
        get_u64 page body pos >>= λ (first, pos). ok pos)
    else (get_varint page body pos >>= λ (vlen, pos).
        get_slice page body pos vlen >>= λ (v, pos). ok pos)

pub data PayloadView : Type 0 where
  inline_view : List ℕ → PayloadView
  overflow_view : ℕ → ℕ → PayloadView

-- The match at the end of both views.
unfoldable pub payload_view : ℕ → List ℕ → ℕ → ℕ → Result PayloadView
payload_view page body pos flags =
    if not (bit_and flags cell_overflow_flag == 0)
    then (get_varint page body pos >>= λ (total_len, pos).
        get_u64 page body pos >>= λ (first, pos). ok (overflow_view total_len first))
    else (get_varint page body pos >>= λ (vlen, pos).
        get_slice page body pos vlen >>= λ (v, pos). ok (inline_view v))

-- The key as it is stored.
unfoldable pub leaf_cell_view : ℕ → List ℕ → ℕ → Result (List ℕ × PayloadView)
leaf_cell_view page body i = do
  (flags, key, payload_pos) ← leaf_key_at page body (cell_ptr body i)
  payload ← payload_view page body payload_pos flags
  ok (key, payload)

-- The whole key, which goes into the buffer that is passed.
unfoldable pub leaf_cell_view_into : ℕ → List ℕ → ℕ → Result (List ℕ × PayloadView)
leaf_cell_view_into page body i = do
  (flags, suffix, payload_pos) ← leaf_key_at page body (cell_ptr body i)
  (prefix, start) ← leaf_prefix_and_start page body
  payload ← payload_view page body payload_pos flags
  ok (prefix ++ suffix, payload)

module _ {ℓ} {S : Type ℓ} (f : S → List ℕ → Result S) (page : ℕ) (body lprefix : List ℕ) where
  -- `for i in 0..ncells`, from `i` on.
  unfoldable pub emit_all : ℕ → ℕ → S → Result S
  emit_all zero i s = ok s
  emit_all (suc n) i s = do
    (flags, suffix, pos) ← leaf_key_at page body (cell_ptr body i)
    s ← f s (lprefix ++ suffix)
    emit_all n (i + 1) s

  -- The loop from the lower bound on, which ends behind the last cell or at another prefix.
  unfoldable pub emit_while : List ℕ → ℕ → ℕ → S → Result (S × Bool)
  emit_while srest zero i s = ok (s, true)
  emit_while srest (suc n) i s = leaf_key_at page body (cell_ptr body i) >>= λ (flags, suffix, pos).
      elim (starts_with suffix srest) [
        | false ↦ ok (s, false)
        | true ↦ f s (lprefix ++ suffix) >>= λ s. emit_while srest n (i + 1) s
      ]

-- The state of `f` at the end, and whether the keys with the prefix may go on in the next leaf.
unfoldable pub leaf_for_each_prefix {ℓ} :
    {S : Type ℓ} → ℕ → List ℕ → List ℕ → (S → List ℕ → Result S) → S → Result (S × Bool)
leaf_for_each_prefix page body prefix f s =
    if not (node_type body == type_leaf)
    then bad_page page "se esperaba una hoja"
    else (leaf_prefix_and_start page body >>= λ (lprefix, start).
        if leb (length prefix) (length lprefix)
        then (if starts_with lprefix prefix
            then (emit_all f page body lprefix (ncells_of body) 0 s >>= λ s. ok (s, true))
            else ok (s, key_lt lprefix prefix))
        else (if not (starts_with prefix lprefix)
            then ok (s, key_lt lprefix prefix)
            else (let srest = drop (length lprefix) prefix in
                bisect (leaf_test page body srest) (ncells_of body) 0 (ncells_of body) >>= λ lo.
                emit_while f page body lprefix srest (ncells_of body - lo) lo s)))
