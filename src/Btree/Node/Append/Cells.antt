-- ===== src/Btree/Node/Append/Cells.antt =====
-- What the scan of `leaf_append` finds in the cells of a leaf: where they end, and the last key as it
-- is stored, which decides whether the new key keeps the order.
use arkeion.Common.{
  ℕ, ◌+◌, ◌≡◌, refl, ap, sym, ◌∙◌, arith, true, false, not, inl, inr, Bool-cases, bit_and, Option,
  none, some, List, [], ◌∷◌, ◌++◌, append_assoc, map, All, length, length-append, drop, ◌==◌,
}
use mathlib.Core.Path.{ap₂, subst}
use arkeion.Common.Cursor.{At, At-length}
use arkeion.Common.Fields.{starts_with}
use arkeion.Common.Lex.{lex}
use arkeion.Common.LexOrder.{lex-shared}
use arkeion.Format.Prefixed.{IsBuffer}
use arkeion.Error.{Result, err, ok, bind-eq-ok}
use arkeion.Btree.Node.{cell_overflow_flag, Payload, LeafCell, get_varint, get_slice, get_u64}
use arkeion.Btree.Node.Write.Slots.{concat}
use arkeion.Btree.Node.Parse.{follows, is_empty_key, read_leaf_payload}
use arkeion.Btree.Node.Parse.Reads.{reads-leaf_cell}
use arkeion.Btree.Node.Parse.RoundTrip.{Ordered, leaf_block, leaf_keys, HasPrefix}
use arkeion.Btree.Node.LeafPage.{IsLeafCell}
use arkeion.Btree.Node.Views.{skip_leaf_payload}
use arkeion.Btree.Node.Append.{skip_cells, is_last}

-- Skipping a payload ends where reading it does.
pub skip_leaf_payload-read_leaf_payload :
    (page : ℕ) (body : List ℕ) (pos flags end : ℕ) (payload : Payload)
    → read_leaf_payload page body pos flags ≡ ok (payload, end)
    → skip_leaf_payload page body pos flags ≡ ok end
unfolding read_leaf_payload skip_leaf_payload
skip_leaf_payload-read_leaf_payload page body pos flags end payload h =
    elim (Bool-cases (not (bit_and flags cell_overflow_flag == 0))) [
      | inl t ↦
          let (total, number, h1) = bind-eq-ok (get_varint page body pos) _ (rw t at h) in
          let (first, page_read, h2) = bind-eq-ok (get_u64 page body total.1) _ h1 in
          rw (t, number, page_read) (end_of h2)
      | inr f ↦
          let (len, number, h1) = bind-eq-ok (get_varint page body pos) _ (rw f at h) in
          let (bytes, slice_read, h2) = bind-eq-ok (get_slice page body len.1 len.0) _ h1 in
          rw (f, number, slice_read) (end_of h2)
    ]
  where
    position : Result (Payload × ℕ) → Result ℕ
    position (err e) = err e
    position (ok (p, n)) = ok n

    end_of :
        {p : Payload} {n : ℕ}
        → ◌≡◌ {A = Result (Payload × ℕ)} (ok (p, n)) (ok (payload, end))
        → ◌≡◌ {A = Result ℕ} (ok n) (ok end)
    end_of e = ap position e

pub starts_with-append :
    (key prefix : List ℕ) → starts_with key prefix ≡ true → prefix ++ drop (length prefix) key ≡ key
starts_with-append key [] h = refl
starts_with-append [] (p ∷ ps) h = cc
starts_with-append (x ∷ xs) (p ∷ ps) h = elim (Bool-cases (x == p)) [
  | inl t ↦
      let same : p ≡ x = ground (arith, t) in
      ap₂ (λ (y : ℕ) (ys : List ℕ). y ∷ ys) same (starts_with-append xs ps (rw t at h))
  | inr f ↦ let no : false ≡ true = rw f at h in cc
]

-- The last key as it is stored.
abbrev pub last_suffix : ℕ → Option (List ℕ) → List LeafCell → Option (List ℕ)
last_suffix plen last [] = last
last_suffix plen last (c ∷ cells) = last_suffix plen (some (drop plen c.key)) cells

pub skip_cells-concat :
    (page : ℕ) (buf : List ℕ) (plen : ℕ) (cells : List LeafCell) (pos : ℕ) (last : Option (List ℕ))
    (rest : List ℕ)
    → IsBuffer buf
    → All IsLeafCell cells
    → At buf pos (concat (map (leaf_block plen) cells) ++ rest)
    → skip_cells page buf (length cells) pos last
      ≡ ok (pos + length (concat (map (leaf_block plen) cells)), last_suffix plen last cells)
unfolding skip_cells
skip_cells-concat page buf plen [] pos last rest small h at =
    ap (λ (k : ℕ). ok (k, last)) (omega arith)
skip_cells-concat page buf plen (c ∷ cells) pos last rest small (h, hs) at =
    let block : List ℕ = leaf_block plen c in
    let more : List ℕ = concat (map (leaf_block plen) cells) in
    let here : At buf pos (block ++ (more ++ rest)) = rw (append_assoc block more rest) at at in
    let r =
      reads-leaf_cell page buf small (drop plen c.key) c.payload (more ++ rest) pos h.1 here in
    let skipped =
      skip_leaf_payload-read_leaf_payload page buf r.payload_pos r.flags r.end c.payload
        r.payload_read in
    let later =
      skip_cells-concat page buf plen cells r.end (some (drop plen c.key)) rest small hs r.next in
    let end : r.end + length more ≡ pos + length (block ++ more) = omega (
      arith,
      At-length buf (more ++ rest) r.end r.next,
      At-length buf (block ++ (more ++ rest)) pos here,
      length-append block (more ++ rest),
      length-append block more,
    ) in
    rw (r.key_read, skipped)
      (later ∙ ap (λ (k : ℕ). ok (k, last_suffix plen (some (drop plen c.key)) cells)) end)

-- The key that is stored, behind the prefix.
whole : List ℕ → Option (List ℕ) → Option (List ℕ)
whole prefix none = none
whole prefix (some s) = some (prefix ++ s)

Ordered-last :
    (prefix stored key : List ℕ) (payload : Payload) (cells : List LeafCell)
    (last : Option (List ℕ))
    → is_empty_key key ≡ false
    → prefix ++ stored ≡ key
    → All (HasPrefix prefix) cells
    → Ordered (whole prefix last) (leaf_keys cells)
    → is_last (last_suffix (length prefix) last cells) stored ≡ true
    → Ordered
        (whole prefix last)
        (leaf_keys (cells ++ (record { key = key; payload = payload } ∷ [])))
unfolding whole
Ordered-last prefix stored key payload [] none full e h o l = (full, refl, tt)
Ordered-last prefix stored key payload [] (some s) full e h o l =
    let same : lex (prefix ++ s) key ≡ lex s stored =
      ap (lex (prefix ++ s)) (sym e) ∙ lex-shared prefix s stored in
    (full, rw (follows, same) l, tt)
Ordered-last prefix stored key payload (c ∷ cells) last full e (h, hs) (nonempty, next, o) l =
    let key_is : whole prefix (some (drop (length prefix) c.key)) ≡ some c.key = ap some h in
    (
      nonempty,
      next,
      subst
          (λ (k : Option (List ℕ)).
            Ordered k (leaf_keys (cells ++ (record { key = key; payload = payload } ∷ []))))
          key_is
          (Ordered-last prefix stored key payload cells (some (drop (length prefix) c.key)) full e
            hs (subst (λ (k : Option (List ℕ)). Ordered k (leaf_keys cells)) (sym key_is) o) l),
    )

pub Ordered-append :
    (prefix stored key : List ℕ) (payload : Payload) (cells : List LeafCell)
    → is_empty_key key ≡ false
    → prefix ++ stored ≡ key
    → All (HasPrefix prefix) cells
    → Ordered none (leaf_keys cells)
    → is_last (last_suffix (length prefix) none cells) stored ≡ true
    → Ordered none (leaf_keys (cells ++ (record { key = key; payload = payload } ∷ [])))
unfolding whole
Ordered-append prefix stored key payload cells full e h o l =
    Ordered-last prefix stored key payload cells none full e h o l
