-- ===== src/Btree/Node/Append/Inline.antt =====
-- The append at a known end is the append that scans the cells.
use arkeion.Common.{
  ℕ, ◌+◌, ◌-◌, ◌*◌, ◌≤◌, ◌≡◌, refl, ap, sym, ◌∙◌, arith, true, inl, inr, Bool-cases, none, some,
  List, [], ◌∷◌, map, All, length, length-drop, drop, ltb, ltb-false, if◌then◌else◌,
}
use arkeion.Common.Words.{IsU64}
use arkeion.Common.Fields.{starts_with, write_at}
use arkeion.Error.{Result, err, ok, ◌>>=◌}
use arkeion.Btree.Node.{
  inline, LeafCell, ncells_of, leaf_prefix_and_start, leaf_is_compressed, inline_cell_size,
}
use arkeion.Btree.Node.Write.{put, put_varint_at, encode_leaf_cell, write_leaf_cell_at}
use arkeion.Btree.Node.Write.Cells.{Puts, write_leaf_cell_at-Puts, stored_length, IsPayload}
use arkeion.Btree.Node.Write.Slots.{concat}
use arkeion.Btree.Node.Parse.RoundTrip.{leaf_block}
use arkeion.Btree.Node.LeafPage.{IsLeafCell, LeafPage}
use arkeion.Btree.Node.Append.{
  leaf_append, append_inline_at, stored_key, skip_cells, is_last, count_cell,
}
use arkeion.Btree.Node.Append.Cells.{last_suffix}
use arkeion.Btree.Node.Append.Invariant.{scanned}

prefix_of : Result (List ℕ × ℕ) → List ℕ
prefix_of (ok (prefix, start)) = prefix
prefix_of (err e) = []

-- Both appends store the same of a key.
stored_key-LeafPage :
    (body : List ℕ) (cells : List LeafCell) (prefix key : List ℕ)
    → LeafPage body cells prefix
    → stored_key body key
      ≡ (if starts_with key prefix then some (drop (length prefix) key) else none)
unfolding stored_key prefix_of leaf_prefix_and_start
stored_key-LeafPage body cells prefix key p = elim (Bool-cases (leaf_is_compressed body)) [
  | inl t ↦ rw (stored_key, t, p.prefix_read 0) refl
  | inr f ↦
      let nothing : [] ≡ prefix = ap prefix_of (rw f at p.prefix_read 0) in
      rw (stored_key, f)
        (ap (λ (l : List ℕ). if starts_with key l then some (drop (length l) key) else none)
          nothing)
]

module _ (page : ℕ) (body : List ℕ) (cells : List LeafCell) (prefix key value : List ℕ) (end : ℕ)
    (h : All IsLeafCell cells) (p : LeafPage body cells prefix) (hk : IsU64 (length key))
    (hv : IsU64 (length value))
    (at : end ≡ length p.front + length (concat (map (leaf_block (length prefix)) cells)))
    (order : is_last (last_suffix (length prefix) none cells) (drop (length prefix) key)
      ≡ true) where
  inline_written :
      let stored = drop (length prefix) key in
      end + length (encode_leaf_cell stored (inline value)) ≤ length body
      → put value (
          put_varint_at
            (length value)
            (put stored (put_varint_at (length stored) (put (0 ∷ []) (body, end)))))
        ≡ (
          write_at body end (encode_leaf_cell stored (inline value)),
          end + length (encode_leaf_cell stored (inline value)),
        )
  unfolding Puts write_leaf_cell_at put
  inline_written fits =
      write_leaf_cell_at-Puts (drop (length prefix) key) (inline value) body end fits

  -- On the page of a leaf, at the position where its cells end and for a key behind the last one,
  -- the append of an inline value without a scan does what the append with a scan does, also where
  -- the key does not have the common prefix or the cell does not fit.
  pub append_inline_at-leaf_append :
      leaf_append page body key (inline value) ≡ ok (append_inline_at body end key value)
  unfolding leaf_append append_inline_at IsPayload inline_cell_size
  append_inline_at-leaf_append =
      let stored : List ℕ = drop (length prefix) key in
      let cell : List ℕ = encode_leaf_cell stored (inline value) in
      let n : ℕ = ncells_of body in
      let found : skip_cells page body n (length p.front) none
          ≡ ok (end, last_suffix (length prefix) none cells) =
        ap (λ (k : ℕ). skip_cells page body k (length p.front) none) p.ncells
        ∙ scanned page body cells prefix key (inline value) h p
        ∙ ap (λ (k : ℕ). ok (k, last_suffix (length prefix) none cells)) (sym at) in
      let stores = stored_key-LeafPage body cells prefix key p in
      let short = length-drop (length prefix) key in
      let size : inline_cell_size stored (length value) ≡ length cell =
        omega (arith, stored_length stored (inline value) (omega (arith, short)) hv) in
      elim (Bool-cases (starts_with key prefix)) [
        | inr f ↦
            let scan : leaf_append page body key (inline value) ≡ ok none =
              rw (leaf_append, p.is_leaf, p.prefix_read page, ◌>>=◌, f) refl in
            let stored_is : stored_key body key ≡ none = stores ∙ rw f refl in
            let direct : append_inline_at body end key value ≡ none =
              rw (append_inline_at, stored_is) refl in
            scan ∙ ap ok (sym direct)
        | inl t ↦
            let stored_is : stored_key body key ≡ some stored = stores ∙ rw t refl in
            elim (Bool-cases (ltb (length body - 2 * (n + 1)) (end + length cell))) [
              | inl o ↦
                  let scan : leaf_append page body key (inline value) ≡ ok none =
                    rw (leaf_append, p.is_leaf, p.prefix_read page, ◌>>=◌, t, found, order, o)
                      refl in
                  let direct : append_inline_at body end key value ≡ none =
                    rw (append_inline_at, stored_is, size, o) refl in
                  scan ∙ ap ok (sym direct)
              | inr r ↦
                  let room = ltb-false (length body - 2 * (n + 1)) (end + length cell) r in
                  let scan : leaf_append page body key (inline value)
                      ≡ ok (some (count_cell (write_at body end cell) n end, end + length cell)) =
                    rw (leaf_append, p.is_leaf, p.prefix_read page, ◌>>=◌, t, found, order, r)
                      refl in
                  let direct : append_inline_at body end key value
                      ≡ some (count_cell (write_at body end cell) n end, end + length cell) =
                    rw (append_inline_at, stored_is, size, r, inline_written (omega (arith, room)))
                      refl in
                  scan ∙ ap ok (sym direct)
            ]
      ]
