-- ===== src/Btree/Node/LeafPage/Encode.antt =====
-- The two forms of `encode_leaf` write a leaf page.
use arkeion.Common.{
  ℕ, ◌+◌, ◌*◌, ◌^◌, ◌≤◌, ◌<◌, ◌≡◌, refl, ap, sym, ◌∙◌, arith, Bool-cases, inl, inr, some, List, [],
  ◌∷◌, ◌++◌, append_assoc, append-nil, All, length, length-append, length-drop, drop, get_or, ltb,
  ltb-false,
}
use mathlib.Core.Path.{subst}
use mathlib.Core.Option.{some-injective}
use arkeion.Common.Cursor.{At, At-start, At-append}
use arkeion.Common.Words.{IsU64, le_bytes, length-le_bytes}
use arkeion.Common.Fields.{write_at, write_all}
use arkeion.Format.{put_varint, varint_len}
use arkeion.Format.VarintLen.{length-put_varint}
use arkeion.Error.{ok}
use arkeion.Btree.Node.{
  type_leaf, leaf_hdr, leaf_prefix_flag, LeafCell, sum_of, leaf_suffix_cell_size, leaf_cell_size,
  leaf_prefix_and_start, leaf_is_compressed,
}
use arkeion.Btree.Node.Write.{
  Cursor, put, put_varint_at, write_leaf_cells, fill_gap, leaf_header, encode_compressed,
  encode_plain,
}
use arkeion.Btree.Node.Write.Cells.{Puts, Puts-put, Puts-varint, Puts-append}
use arkeion.Btree.Node.Write.Slots.{write_at-front}
use arkeion.Btree.Node.Parse.Reads.{reads-prefixed}
use arkeion.Btree.Node.Parse.RoundTrip.{HasPrefix}
use arkeion.Btree.Node.LeafPage.{
  IsLeafCell, LeafPage, PrefixReads, leaf-Slotted, leaf_front, length-leaf_front,
  write_all-leaf_header, suffix_size-zero, no_prefix, Slotted→LeafPage,
}

plain_reads : PrefixReads 0 [] []
unfolding leaf_prefix_and_start leaf_is_compressed
plain_reads p n page rest small whole =
    let flag : get_or page 1 0 ≡ 0 = ap (λ (l : List ℕ). get_or l 1 0) whole in rw flag refl

pub encode_plain-LeafPage :
    (cells : List LeafCell) (body page : List ℕ)
    → All IsLeafCell cells
    → length body < 2 ^ 16
    → encode_plain cells body ≡ some page
    → LeafPage page cells []
unfolding encode_plain
encode_plain-LeafPage cells body page h small e =
    let n : ℕ = length cells in
    let content_end : ℕ = leaf_hdr + sum_of leaf_cell_size cells in
    let front : List ℕ = leaf_front 0 n in
    let four = length-leaf_front 0 n in
    let same = suffix_size-zero cells in
    elim (Bool-cases (ltb (length body) (content_end + 2 * n))) [
      | inl t ↦ absurd (ground (arith, t))
      | inr f ↦
          let room = ltb-false (length body) (content_end + 2 * n) f in
          let header : write_all body (leaf_header 0 n) ≡ (front ++ []) ++ drop 4 body =
            write_all-leaf_header 0 n body (omega arith)
            ∙ ap (λ (l : List ℕ). l ++ drop 4 body) (sym (append-nil front)) in
          let made = some-injective _ page (rw f at e) in
          let front_is = ap (λ (l : List ℕ). length l) (append-nil front) in
          let (s, total) =
            leaf-Slotted 0 cells (front ++ []) (drop 4 body) page leaf_hdr content_end h
              (omega (arith, four, front_is)) (omega (arith, four, front_is, same))
              (omega (arith, four, front_is, same, length-drop 4 body))
              (ap
                  (λ (b : List ℕ).
                    fill_gap content_end n (write_leaf_cells 0 0 cells (b, leaf_hdr)))
                  (sym header)
                ∙ made) in
          let small_page : length page < 2 ^ 16 = omega (
            arith,
            total,
            four,
            front_is,
            length-append (front ++ []) (drop 4 body),
            length-drop 4 body,
          ) in
          Slotted→LeafPage page cells [] [] 0 small_page (omega arith) (no_prefix cells) s
            plain_reads
    ]

-- The prefix, written behind the header.
prefix_written :
    (front rest prefix : List ℕ) (off : ℕ)
    → off ≡ length front
    → length (put_varint (length prefix) ++ prefix) ≤ length rest
    → put prefix (put_varint_at (length prefix) (front ++ rest, off)) ≡ (
      (front ++ (put_varint (length prefix) ++ prefix))
          ++ (drop (length (put_varint (length prefix) ++ prefix)) rest ++ []),
      off + length (put_varint (length prefix) ++ prefix),
    )
unfolding Puts put
prefix_written front rest prefix off e h =
    let pblock : List ℕ = put_varint (length prefix) ++ prefix in
    let puts : Puts (λ c. put prefix (put_varint_at (length prefix) c)) pblock =
      Puts-append (put_varint_at (length prefix)) (put prefix) _ _ (Puts-varint (length prefix))
        (Puts-put prefix) in
    puts (front ++ rest) off (omega (arith, length-append front rest))
    ∙ ap (λ (l : List ℕ). (write_at (front ++ l) off pblock, off + length pblock))
        (sym (append-nil rest))
    ∙ ap (λ (l : List ℕ). (l, off + length pblock)) (write_at-front front rest [] pblock h off e)

-- The prefix is read back behind the header.
compressed_reads :
    (prefix : List ℕ) → PrefixReads leaf_prefix_flag (put_varint (length prefix) ++ prefix) prefix
unfolding leaf_prefix_and_start leaf_is_compressed
compressed_reads prefix p n page rest small whole =
    let pv : List ℕ = put_varint (length prefix) in
    let flag : get_or page 1 0 ≡ leaf_prefix_flag = ap (λ (l : List ℕ). get_or l 1 0) whole in
    let start =
      At-append page (type_leaf ∷ leaf_prefix_flag ∷ []) _ 0
        (subst (λ (l : List ℕ). At page 0 l) whole (At-start page)) in
    let there : At page 4 (pv ++ (prefix ++ rest)) =
      subst (λ (l : List ℕ). At page 4 l) (append_assoc pv prefix rest)
        (subst (λ (q : ℕ). At page q ((pv ++ prefix) ++ rest)) (omega (arith, length-le_bytes 2 n))
          (At-append page (le_bytes 2 n) ((pv ++ prefix) ++ rest) 2 start)) in
    let (number, bytes, behind) = reads-prefixed p page (omega arith) prefix rest 4 there in
    let end : 4 + length pv + length prefix ≡ 4 + length (pv ++ prefix) =
      omega (arith, length-append pv prefix) in
    rw (flag, number, bytes) (ap (λ (k : ℕ). ok (prefix, k)) end)

pub encode_compressed-LeafPage :
    (prefix : List ℕ) (cells : List LeafCell) (body page : List ℕ)
    → All IsLeafCell cells
    → All (HasPrefix prefix) cells
    → length body < 2 ^ 16
    → encode_compressed (length prefix) prefix cells body ≡ some page
    → LeafPage page cells prefix
unfolding encode_compressed
encode_compressed-LeafPage prefix cells body page h keys small e =
    let n : ℕ = length cells in
    let plen : ℕ = length prefix in
    let content_end : ℕ =
      leaf_hdr + (varint_len plen + plen + sum_of (λ c. leaf_suffix_cell_size c plen) cells) in
    let front : List ℕ = leaf_front leaf_prefix_flag n in
    let pblock : List ℕ = put_varint plen ++ prefix in
    let four = length-leaf_front leaf_prefix_flag n in
    elim (Bool-cases (ltb (length body) (content_end + 2 * n))) [
      | inl t ↦ absurd (ground (arith, t))
      | inr f ↦
          let room = ltb-false (length body) (content_end + 2 * n) f in
          let header = write_all-leaf_header leaf_prefix_flag n body (omega arith) in
          let made = some-injective _ page (rw f at e) in
          let fits : IsU64 plen = omega arith in
          let psize = length-append (put_varint plen) prefix in
          let pv = length-put_varint plen fits in
          let rest : List ℕ = drop (length pblock) (drop 4 body) ++ [] in
          let rest_is : length rest + length pblock + 4 ≡ length body = omega (
            arith,
            psize,
            pv,
            length-append (drop (length pblock) (drop 4 body)) [],
            length-drop (length pblock) (drop 4 body),
            length-drop 4 body,
          ) in
          let front_is = length-append front pblock in
          let written =
            ap (λ (b : List ℕ). put prefix (put_varint_at plen (b, leaf_hdr))) header
            ∙ prefix_written front (drop 4 body) prefix leaf_hdr (sym four)
                (omega (arith, psize, pv, length-drop 4 body)) in
          let (s, total) =
            leaf-Slotted plen cells (front ++ pblock) rest page (leaf_hdr + length pblock)
              content_end h (omega (arith, four, front_is))
              (omega (arith, four, front_is, psize, pv)) (omega (arith, four, front_is, rest_is))
              (ap (λ (c : Cursor). fill_gap content_end n (write_leaf_cells plen 0 cells c))
                  (sym written)
                ∙ made) in
          let small_page : length page < 2 ^ 16 =
            omega (arith, total, four, front_is, length-append (front ++ pblock) rest, rest_is) in
          Slotted→LeafPage page cells prefix pblock leaf_prefix_flag small_page (omega arith) keys s
            (compressed_reads prefix)
    ]
