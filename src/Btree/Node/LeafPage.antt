-- ===== src/Btree/Node/LeafPage.antt =====
-- What a page is that `encode_leaf` has written, in either form: the header, the prefix of a
-- compressed leaf, and the slotted cells.
pub mod Encode
pub mod Shared
use arkeion.Common.{
  ℕ, zero, suc, ◌+◌, ◌-◌, ◌*◌, ◌^◌, ◌≤◌, ◌<◌, ◌≡◌, refl, ap, sym, ◌∙◌, arith, Bool, true, false,
  not, Bool-cases, inl, inr, bit_and, Option, none, some, List, [], ◌∷◌, ◌++◌, append_assoc,
  append-nil, map, All, length, length-map, length-append, length-drop, take, drop, get_or, ltb,
  ltb-false, leb, ◌&&◌, ◌==◌, if◌then◌else◌,
}
use mathlib.Core.Path.{ap₂, subst}
use mathlib.Core.Option.{some-injective}
use arkeion.Common.Cursor.{At, At-start, At-append}
use arkeion.Common.Words.{IsU64, le_bytes, length-le_bytes}
use arkeion.Common.Fields.{write_at, write_all, write_all-contents}
use arkeion.Format.{put_varint, varint_len}
use arkeion.Format.VarintLen.{length-put_varint}
use arkeion.Format.Prefixed.{IsBuffer}
use arkeion.Error.{ok}
use arkeion.Btree.Node.{
  payload_size, type_leaf, leaf_hdr, leaf_prefix_flag, LeafCell, node_type, ncells_of, sum_of,
  leaf_suffix_cell_size, leaf_cell_size, leaf_prefix_and_start, leaf_is_compressed,
}
use arkeion.Btree.Node.Write.{
  Cursor, put, put_varint_at, write_leaf_cell_at, write_leaf_cells, fill_gap, leaf_header,
  encode_compressed, encode_plain,
}
use arkeion.Btree.Node.Write.Cells.{
  Puts, Puts-put, Puts-varint, Puts-append, IsPayload, write_leaf_cell_at-Puts,
  length-encode_leaf_cell,
}
use arkeion.Btree.Node.Write.Slots.{concat, pointers, slots, AllPuts, write_at-front}
use arkeion.Btree.Node.Write.Pages.{Slotted, fill_gap-Slotted}
use arkeion.Btree.Node.Parse.Reads.{reads-prefixed}
use arkeion.Btree.Node.Parse.RoundTrip.{leaf_block, HasPrefix}
use arkeion.Btree.Node.InnerPage.{header_ncells}

abbrev pub IsLeafCell : LeafCell → Type 0
IsLeafCell c = IsU64 (length c.key) × IsPayload c.payload

abbrev pub leaf_front : ℕ → ℕ → List ℕ
leaf_front flags n = type_leaf ∷ flags ∷ (le_bytes 2 n ++ [])

-- What stands behind the header, `pblock`, is read as the prefix, whatever is counted and follows.
abbrev pub PrefixReads : ℕ → List ℕ → List ℕ → Type 0
PrefixReads flags pblock prefix =
    (p n : ℕ) (page rest : List ℕ)
    → length page < 2 ^ 16
    → page ≡ type_leaf ∷ flags ∷ (le_bytes 2 n ++ (pblock ++ rest))
    → leaf_prefix_and_start p page ≡ ok (prefix, 4 + length pblock)

-- A page with a leaf, whose keys share a prefix.
pub record LeafPage (page : List ℕ) (cells : List LeafCell) (prefix : List ℕ) : Type 0 where
  pub small : length page < 2 ^ 16
  pub flags : ℕ
  pub pblock : List ℕ
  pub front : List ℕ
  pub front_is : front ≡ leaf_front flags (length cells) ++ pblock
  pub reads : PrefixReads flags pblock prefix
  pub slotted : Slotted page front (map (leaf_block (length prefix)) cells)
  pub is_leaf : node_type page ≡ type_leaf
  pub ncells : ncells_of page ≡ length cells
  pub prefix_read : (p : ℕ) → leaf_prefix_and_start p page ≡ ok (prefix, length front)
  pub keys : All (HasPrefix prefix) cells

module _ (plen : ℕ) where
  abbrev leaf_writers : List LeafCell → List (Cursor → Cursor)
  leaf_writers = map (λ c. write_leaf_cell_at (drop plen c.key) c.payload)

  write_leaf_cells-slots :
      (i : ℕ) (cells : List LeafCell) (c : Cursor)
      → write_leaf_cells plen i cells c ≡ slots i (leaf_writers cells) c
  unfolding write_leaf_cells slots
  write_leaf_cells-slots i [] c = refl
  write_leaf_cells-slots i (d ∷ cells) (body, off) = write_leaf_cells-slots (i + 1) cells _

  leaf-AllPuts :
      (cells : List LeafCell) → AllPuts (leaf_writers cells) (map (leaf_block plen) cells)
  leaf-AllPuts [] = tt
  leaf-AllPuts (c ∷ cells) =
      (write_leaf_cell_at-Puts (drop plen c.key) c.payload, leaf-AllPuts cells)

  length-leaf_blocks :
      (cells : List LeafCell)
      → All IsLeafCell cells
      → length (concat (map (leaf_block plen) cells))
        ≡ sum_of (λ c. leaf_suffix_cell_size c plen) cells
  length-leaf_blocks [] h = refl
  length-leaf_blocks (c ∷ cells) (h, hs) = omega (
    arith,
    length-append (leaf_block plen c) (concat (map (leaf_block plen) cells)),
    length-encode_leaf_cell c plen h.0 h.1,
    length-leaf_blocks cells hs,
  )

  -- The cells behind any front, up to the pointers.
  pub leaf-Slotted :
      (cells : List LeafCell) (front rest page : List ℕ) (off content_end : ℕ)
      → All IsLeafCell cells
      → off ≡ length front
      → content_end ≡ length front + sum_of (λ c. leaf_suffix_cell_size c plen) cells
      → content_end + 2 * length cells ≤ length front + length rest
      → fill_gap content_end (length cells) (write_leaf_cells plen 0 cells (front ++ rest, off))
        ≡ page
      → Slotted page front (map (leaf_block plen) cells) × (length page ≡ length (front ++ rest))
  leaf-Slotted cells front rest page off content_end h e end room made =
      let blocks : List (List ℕ) = map (leaf_block plen) cells in
      let sizes = length-leaf_blocks cells h in
      let count = length-map (leaf_block plen) cells in
      let shaped =
        ap (fill_gap content_end (length cells))
          (write_leaf_cells-slots 0 cells (front ++ rest, off)) in
      let (s, total) =
        fill_gap-Slotted (leaf_writers cells) blocks front rest off (length cells) content_end
          (leaf-AllPuts cells) e (sym count) (omega (arith, sizes)) (omega (arith, sizes, count)) in
      (
        subst (λ (q : List ℕ). Slotted q front blocks) (sym shaped ∙ made) s,
        ap (λ (l : List ℕ). length l) (sym made ∙ shaped) ∙ total,
      )

pub length-leaf_front : (flags n : ℕ) → length (leaf_front flags n) ≡ 4
length-leaf_front flags n = omega (arith, length-append (le_bytes 2 n) [], length-le_bytes 2 n)

pub write_all-leaf_header :
    (flags n : ℕ) (body : List ℕ)
    → 4 ≤ length body
    → write_all body (leaf_header flags n) ≡ leaf_front flags n ++ drop 4 body
unfolding leaf_header
write_all-leaf_header flags n body h =
    write_all-contents body (leaf_header flags n) 4 (omega (arith, length-le_bytes 2 n)) h

pub suffix_size-zero :
    (cells : List LeafCell)
    → sum_of (λ c. leaf_suffix_cell_size c 0) cells ≡ sum_of leaf_cell_size cells
unfolding leaf_suffix_cell_size leaf_cell_size
suffix_size-zero [] = refl
suffix_size-zero (c ∷ cells) =
    let whole : length c.key - 0 ≡ length c.key = omega arith in
    ap₂ (λ (a b : ℕ). a + b) (ap (λ (n : ℕ). 1 + varint_len n + n + payload_size c.payload) whole)
      (suffix_size-zero cells)

pub no_prefix : (cells : List LeafCell) → All (HasPrefix []) cells
no_prefix [] = tt
no_prefix (c ∷ cells) = (refl, no_prefix cells)

-- A leaf behind its header, with `pblock` between the header and the cells.
module _ (page : List ℕ) (cells : List LeafCell) (prefix pblock : List ℕ) (flags : ℕ)
    (small : length page < 2 ^ 16) (hn : length cells < 2 ^ 16)
    (keys : All (HasPrefix prefix) cells)
    (s : Slotted page
      (leaf_front flags (length cells) ++ pblock)
      (map (leaf_block (length prefix)) cells)) where
  pub leaf_rest : List ℕ
  leaf_rest =
      concat (map (leaf_block (length prefix)) cells)
      ++ (s.gap
          ++ pointers (length (leaf_front flags (length cells) ++ pblock))
              (map (leaf_block (length prefix)) cells) [])

  pub leaf-whole : page ≡ type_leaf ∷ flags ∷ (le_bytes 2 (length cells) ++ (pblock ++ leaf_rest))
  unfolding leaf_rest
  leaf-whole =
      let n : List ℕ = le_bytes 2 (length cells) in
      s.shape
      ∙ append_assoc (leaf_front flags (length cells) ++ pblock)
          (concat (map (leaf_block (length prefix)) cells)) _
      ∙ append_assoc (leaf_front flags (length cells)) pblock leaf_rest
      ∙ ap (λ (l : List ℕ). type_leaf ∷ flags ∷ (l ++ (pblock ++ leaf_rest))) (append-nil n)

  pub Slotted→LeafPage : PrefixReads flags pblock prefix → LeafPage page cells prefix
  unfolding node_type
  Slotted→LeafPage reads =
      let n : ℕ = length cells in
      let total : 4 + length pblock ≡ length (leaf_front flags n ++ pblock) =
        omega (arith, length-leaf_front flags n, length-append (leaf_front flags n) pblock) in
      record {
        small = small;
        flags = flags;
        pblock = pblock;
        front = leaf_front flags n ++ pblock;
        front_is = refl;
        reads = reads;
        slotted = s;
        is_leaf = ap (λ (l : List ℕ). get_or l 0 0) leaf-whole;
        ncells = ap ncells_of leaf-whole ∙ header_ncells type_leaf flags n (pblock ++ leaf_rest) hn;
        prefix_read =
            λ p. reads p n page leaf_rest small leaf-whole ∙ ap (λ (k : ℕ). ok (prefix, k)) total;
        keys = keys;
      }
