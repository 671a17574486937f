-- ===== src/Btree/Node/RoundTrip.antt =====
-- A node is parsed back from the page that it was encoded into.
use arkeion.Common.{
  ℕ, ◌+◌, ◌-◌, ◌^◌, ◌≤◌, ◌<◌, ◌≡◌, refl, ap, sym, ◌∙◌, arith, none, some, List, [], ◌∷◌, ◌++◌,
  append_assoc, map, All, length, length-append, append-nil, take-append_length, take, drop,
  replicate,
}
use arkeion.Common.Cursor.{At, At-get_range?}
use arkeion.Common.Words.{IsU64, le_bytes, from_le, length-le_bytes}
use arkeion.Common.Fields.{write_at, write_all-contents, slice}
use arkeion.Error.{ok}
use arkeion.Btree.Node.{type_overflow, overflow_hdr, LeafCell, InnerCell, node_type, ncells_of}
use arkeion.Btree.Node.Write.{encode_leaf, encode_inner, encode_overflow}
use arkeion.Btree.Node.Write.Cells.{IsPayload, inner_cell_bytes}
use arkeion.Btree.Node.Write.Pages.{Slotted-start}
use arkeion.Btree.Node.Parse.{parse_leaf, parse_inner, parse_overflow, inner_rightmost}
use arkeion.Btree.Node.Parse.RoundTrip.{
  Ordered, leaf_block, leaf_keys, inner_keys, HasPrefix, parse_leaf_cells-concat,
  parse_inner_cells-concat,
}
use arkeion.Btree.Node.InnerPage.{
  IsInnerCell, InnerPage, encode_inner-InnerPage, header_ncells, header_rightmost,
}
use arkeion.Btree.Node.LeafPage.{IsLeafCell, LeafPage}
use arkeion.Btree.Node.LeafPage.Shared.{encode_leaf-LeafPage}

children : (cells : List InnerCell) → All IsInnerCell cells → All (λ c. IsU64 c.child) cells
children [] h = tt
children (c ∷ cells) (h, hs) = (h.1, children cells hs)

payloads :
    (prefix : List ℕ) (cells : List LeafCell)
    → All IsLeafCell cells
    → All (HasPrefix prefix) cells
    → All (λ c. IsPayload c.payload × HasPrefix prefix c) cells
payloads prefix [] h k = tt
payloads prefix (c ∷ cells) (h, hs) (k, ks) = ((h.1, k), payloads prefix cells hs ks)

pub parse_inner-InnerPage :
    (page : ℕ) (body : List ℕ) (cells : List InnerCell) (rightmost : ℕ)
    → All IsInnerCell cells
    → Ordered none (inner_keys cells)
    → InnerPage body cells rightmost
    → parse_inner page body ≡ ok (cells, rightmost)
unfolding parse_inner
parse_inner-InnerPage page body cells rightmost h o p =
    let (rest, start) =
      Slotted-start body p.front (map inner_cell_bytes cells) p.slotted 12 (sym p.front_length) in
    let small = p.small in
    let (end, read) =
      parse_inner_cells-concat page body (omega arith) cells 12 none rest (children cells h) o
        start in
    rw (p.is_inner, p.ncells, read, p.rightmost_is) refl

-- An inner node with increasing separators that are not empty, which encode_inner writes to a body
-- of less than 2^16 bytes, is parsed back with its rightmost child.
pub parse_inner-encode_inner :
    (page : ℕ) (cells : List InnerCell) (rightmost : ℕ) (body written : List ℕ)
    → All IsInnerCell cells
    → Ordered none (inner_keys cells)
    → IsU64 rightmost
    → length body < 2 ^ 16
    → encode_inner cells rightmost body ≡ some written
    → parse_inner page written ≡ ok (cells, rightmost)
parse_inner-encode_inner page cells rightmost body written h o hr small e =
    parse_inner-InnerPage page written cells rightmost h o
      (encode_inner-InnerPage cells rightmost body written h hr small e)

parse_leaf-LeafPage :
    (page : ℕ) (body : List ℕ) (cells : List LeafCell) (prefix : List ℕ)
    → All IsLeafCell cells
    → Ordered none (leaf_keys cells)
    → LeafPage body cells prefix
    → parse_leaf page body ≡ ok cells
unfolding parse_leaf
parse_leaf-LeafPage page body cells prefix h o p =
    let (rest, start) =
      Slotted-start body p.front (map (leaf_block (length prefix)) cells) p.slotted (length p.front)
        refl in
    let small = p.small in
    let (end, read) =
      parse_leaf_cells-concat page body (omega arith) prefix cells (length p.front) none rest
        (payloads prefix cells h p.keys) o start in
    rw (p.is_leaf, p.prefix_read page, p.ncells, read) refl

-- A leaf with increasing keys that are not empty, which encode_leaf writes with or without a
-- common prefix to a body of less than 2^16 bytes, is parsed back.
pub parse_leaf-encode_leaf :
    (page : ℕ) (cells : List LeafCell) (body written : List ℕ)
    → All IsLeafCell cells
    → Ordered none (leaf_keys cells)
    → length body < 2 ^ 16
    → encode_leaf cells body ≡ some written
    → parse_leaf page written ≡ ok cells
parse_leaf-encode_leaf page cells body written h o small e =
    let (prefix, p) = encode_leaf-LeafPage cells body written h o small e in
    parse_leaf-LeafPage page written cells prefix h o p

-- What an overflow page begins with.
overflow_front : List ℕ → ℕ → List ℕ
overflow_front chunk next =
    type_overflow ∷ 0 ∷ (le_bytes 2 (length chunk) ++ (le_bytes 8 next ++ (chunk ++ [])))

encode_overflow-front :
    (chunk : List ℕ) (next : ℕ) (body : List ℕ)
    → overflow_hdr + length chunk ≤ length body
    → (rest : List ℕ) × (encode_overflow chunk next body ≡ overflow_front chunk next ++ rest)
unfolding encode_overflow overflow_front write_at
encode_overflow-front chunk next body h =
    let end : ℕ = overflow_hdr + length chunk in
    let count = length-le_bytes 2 (length chunk) in
    let number = length-le_bytes 8 next in
    let front : List ℕ = overflow_front chunk next in
    let written =
      write_all-contents body
        ((0, type_overflow ∷ [])
          ∷ (1, 0 ∷ [])
          ∷ (2, le_bytes 2 (length chunk))
          ∷ (4, le_bytes 8 next)
          ∷ (overflow_hdr, chunk)
          ∷ [])
        end (omega (arith, count, number)) h in
    let whole : end ≡ length front = omega (
      arith,
      count,
      number,
      length-append (le_bytes 2 (length chunk)) (le_bytes 8 next ++ (chunk ++ [])),
      length-append (le_bytes 8 next) (chunk ++ []),
      length-append chunk [],
    ) in
    let zeros : List ℕ → List ℕ = λ w. replicate (length w - end) 0 in
    let back : List ℕ → List ℕ = λ w. zeros w ++ drop (end + length (zeros w)) w in
    let full : List ℕ = front ++ drop end body in
    (
      back full,
      ap (λ (w : List ℕ). take end w ++ back w) written
          ∙ ap (λ (t : List ℕ). t ++ back full)
              (take-append_length front (drop end body) end whole),
    )

-- An overflow page that is written to a body of less than 2^16 bytes with room for the data gives
-- back the data and the next page.
pub parse_overflow-encode_overflow :
    (page : ℕ) (chunk : List ℕ) (next : ℕ) (body : List ℕ)
    → overflow_hdr + length chunk ≤ length body
    → length body < 2 ^ 16
    → IsU64 next
    → parse_overflow page (encode_overflow chunk next body) ≡ ok (chunk, next)
unfolding parse_overflow overflow_front node_type inner_rightmost
parse_overflow-encode_overflow page chunk next body h small hn =
    let (rest, made) = encode_overflow-front chunk next body h in
    let n : List ℕ = le_bytes 2 (length chunk) in
    let r : List ℕ = le_bytes 8 next in
    let buf : List ℕ = encode_overflow chunk next body in
    let whole : buf ≡ type_overflow ∷ 0 ∷ (n ++ (r ++ (chunk ++ rest))) =
      made
      ∙ ap (λ (l : List ℕ). type_overflow ∷ 0 ∷ l) (append_assoc n (r ++ (chunk ++ [])) rest)
      ∙ ap (λ (l : List ℕ). type_overflow ∷ 0 ∷ (n ++ l)) (append_assoc r (chunk ++ []) rest)
      ∙ ap (λ (l : List ℕ). type_overflow ∷ 0 ∷ (n ++ (r ++ (l ++ rest)))) (append-nil chunk) in
    let kind : node_type buf ≡ type_overflow = ap node_type whole in
    let count : ncells_of buf ≡ length chunk =
      ap ncells_of whole
      ∙ header_ncells type_overflow 0 (length chunk) (r ++ (chunk ++ rest)) (omega arith) in
    let number : from_le (slice buf 4 12) ≡ next =
      ap inner_rightmost whole
      ∙ header_rightmost type_overflow 0 (length chunk) next (chunk ++ rest) hn in
    let there : At buf 12 (chunk ++ rest) = record {
      before = type_overflow ∷ 0 ∷ (n ++ r);
      splits =
          whole
          ∙ ap (λ (l : List ℕ). type_overflow ∷ 0 ∷ l) (sym (append_assoc n r (chunk ++ rest)));
      length_before =
          omega
            (arith, length-append n r, length-le_bytes 2 (length chunk), length-le_bytes 8 next);
    } in
    rw
      (
        kind,
        count,
        At-get_range? buf chunk rest 12 (overflow_hdr + length chunk) there refl,
        number,
      )
      refl
