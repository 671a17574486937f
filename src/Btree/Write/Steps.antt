-- ===== src/Btree/Write/Steps.antt =====
-- The chains of overflow pages are written and freed by the steps of a store.
use arkeion.Common.{ℕ, zero, suc, List, [], ◌∷◌, length, ◌==◌, leb, Bool-cases, inl, inr}
use arkeion.Btree.Node.{Payload, inline, overflow, overflow_data, inline_cell_size, max_inline_cell}
use arkeion.Btree.Node.Parse.{parse_overflow}
use arkeion.Btree.Node.Write.{encode_overflow}
use arkeion.Btree.Read.{no_root}
use arkeion.Btree.Write.{chunks, write_chunks, write_chain, make_payload, free_chain, free_payload}
use arkeion.Tx.Store.{TxStore, body, alloc, is_dirty, free}
use arkeion.Tx.Store.Steps.{
  Steps, Reach, after_alloc, bind-Reach, body_mut-Reach, alloc-Steps, write-Steps, free-Steps,
  Result-cases,
}

write_chunks-Reach : (cs : List (List ℕ)) (s t : TxStore) → Steps s t → Reach s (write_chunks cs t)
unfolding write_chunks
write_chunks-Reach [] s t p = p
write_chunks-Reach (chunk ∷ later) s t p =
    bind-Reach s (write_chunks later t) _ (write_chunks-Reach later s t p) λ next u q.
      body_mut-Reach s (after_alloc u) (alloc u).0 _ λ page e.
        write-Steps s (after_alloc u) (alloc u).0 (encode_overflow chunk next page) page e
          (alloc-Steps s u q)

pub make_payload-Reach :
    (s t : TxStore) (key value : List ℕ) → Steps s t → Reach s (make_payload t key value)
unfolding make_payload write_chain
make_payload-Reach s t key value p =
    elim (Bool-cases (leb (inline_cell_size key (length value)) max_inline_cell)) [
      | inl fits ↦ rw (Reach, make_payload, fits) p
      | inr large ↦
          rw (Reach, make_payload, large)
            (bind-Reach s (write_chain t value) _
              (write_chunks-Reach (chunks (length value) overflow_data value) s t p) λ first u q. q)
    ]

free_chain-Reach : (fuel : ℕ) (s t : TxStore) (id : ℕ) → Steps s t → Reach s (free_chain fuel t id)
unfolding free_chain
free_chain-Reach zero s t id p = tt
free_chain-Reach (suc fuel) s t id p = elim (Bool-cases (id == no_root)) [
  | inl ends ↦ rw (Reach, free_chain, ends) p
  | inr goes_on ↦ elim (Result-cases (body t id)) [
    | inl (e, unread) ↦ rw (Reach, free_chain, goes_on, unread) p
    | inr (page, r) ↦ elim (Result-cases (parse_overflow id page)) [
      | inl (e, bad) ↦ rw (Reach, free_chain, goes_on, r, bad) p
      | inr ((chunk, next), good) ↦
          rw (Reach, free_chain, goes_on, r, good)
            (free_chain-Reach fuel s (free t id) next (free-Steps s t id p))
    ]
  ]
]

pub free_payload-Reach :
    (fuel : ℕ) (s t : TxStore) (payload : Payload)
    → Steps s t
    → Reach s (free_payload fuel t payload)
unfolding free_payload
free_payload-Reach fuel s t (inline v) p = p
free_payload-Reach fuel s t (overflow total_len first) p = elim (Bool-cases (is_dirty t first)) [
  | inl dirty ↦ rw (Reach, free_payload, dirty) (free_chain-Reach fuel s t first p)
  | inr durable ↦ rw (Reach, free_payload, durable) p
]
