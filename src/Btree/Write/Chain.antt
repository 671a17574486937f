-- ===== src/Btree/Write/Chain.antt =====
-- Overflow chains that are written to a store are read back from it.
use arkeion.Common.{
  ℕ, zero, suc, ◌+◌, ◌^◌, ◌≤◌, ◌<◌, ◌≡◌, ◌≢◌, refl, sym, ◌∙◌, ap, arith, true, false, Option, none,
  some, List, [], ◌∷◌, ◌++◌, All, length, take, drop, ◌==◌, append-nil, append_assoc, length-take,
  length-drop, take-append-drop,
}
use arkeion.Error.{ok}
use arkeion.Format.{body_size}
use arkeion.Btree.Loop
use arkeion.Btree.Node.{overflow, overflow_data}
use arkeion.Btree.Node.Parse.{parse_overflow}
use arkeion.Btree.Node.Write.{encode_overflow}
use arkeion.Btree.Node.RoundTrip.{parse_overflow-encode_overflow}
use arkeion.Btree.Read.{no_root, read_chain, read_value}
use arkeion.Btree.Write.{chunks, write_chunks, write_chain}
use arkeion.Tx.Store.{TxStore, put, set_page, zeroed, read_at, body, alloc, next_id}
use arkeion.Tx.Store.Run.{Run, ◌>>=◌, done, body_mut}
use arkeion.Tx.Store.Steps.{stays, after_alloc, alloc-dirty, alloc-Steps, write-Steps}
use arkeion.Tx.Store.Numbers.{IsStore, put_same, put_other, next_id-IsNext}
use arkeion.Tx.Store.Durable.{Steps-IsStore, after_alloc-Extends}

abbrev pub concat : List (List ℕ) → List ℕ
concat [] = []
concat (c ∷ cs) = c ++ concat cs

-- The chunks on dirty pages that link from a number on.
abbrev pub Chain : (ℕ → Option (List ℕ)) → ℕ → List (List ℕ) → Type 0
Chain dirty id [] = id ≡ no_root
Chain dirty id (c ∷ cs) =
    (next : ℕ) × (page : List ℕ) × (id ≢ no_root)
    × (dirty id ≡ some page)
    × (parse_overflow id page ≡ ok (c, next))
    × Chain dirty next cs

-- What is dirty stays so, with the same page.
abbrev pub Keeps : (ℕ → Option (List ℕ)) → (ℕ → Option (List ℕ)) → Type 0
Keeps dirty later = (id : ℕ) (page : List ℕ) → dirty id ≡ some page → later id ≡ some page

Chain-Keeps :
    (dirty later : ℕ → Option (List ℕ)) (id : ℕ) (cs : List (List ℕ))
    → Keeps dirty later
    → Chain dirty id cs
    → Chain later id cs
Chain-Keeps dirty later id [] k h = h
Chain-Keeps dirty later id (c ∷ cs) k (next, page, other, d, e, h) =
    (next, page, other, k id page d, e, Chain-Keeps dirty later next cs k h)

pub read_chain-Chain :
    (cs : List (List ℕ)) (s : TxStore) (fuel id : ℕ) (out : List ℕ)
    → Chain s.dirty id cs
    → length cs < fuel
    → read_chain (body s) fuel id out ≡ Loop.done (out ++ concat cs)
unfolding read_chain read_at
read_chain-Chain cs s zero id out h l = absurd (omega arith)
read_chain-Chain [] s (suc fuel) id out h l =
    let ends : (id == no_root) ≡ true = ground (arith, h) in
    rw (read_chain, ends) (ap Loop.done (sym (append-nil out)))
read_chain-Chain (c ∷ cs) s (suc fuel) id out (next, page, other, d, e, h) l =
    let goes_on : (id == no_root) ≡ false = ground (arith, other) in
    rw (read_chain, read_at, goes_on, d, e)
      (read_chain-Chain cs s fuel next (out ++ c) h (omega (arith, l))
        ∙ ap Loop.done (append_assoc out c (concat cs)))

-- What a write of chunks gives: the first page of a chain of them, in a store that keeps its pages.
pub record Written (s : TxStore) (cs : List (List ℕ)) (m : Run ℕ) : Type 0 where
  pub first : ℕ
  pub store : TxStore
  pub returns : m ≡ done first store
  pub chain : Chain store.dirty first cs
  pub keeps : Keeps s.dirty store.dirty
  pub valid : IsStore store
  pub same_base : store.alloc_base ≡ s.alloc_base
  pub grows : store.alloc_next ≤ s.alloc_next + length cs
  pub first_below : first ≤ store.alloc_next

put_page-Keeps :
    (dirty : ℕ → Option (List ℕ)) (id : ℕ) (page : List ℕ)
    → dirty id ≡ none
    → Keeps dirty (put (put dirty id (some zeroed)) id (some page))
put_page-Keeps dirty id page clean i p d =
    let differs : i ≢ id = λ same. let no : dirty i ≡ none = ap dirty same ∙ clean in absurd cc in
    put_other (put dirty id (some zeroed)) id i (some page) differs
    ∙ put_other dirty id i (some zeroed) differs
    ∙ d

-- The page of a chunk in front of a chain.
link-Written :
    (s : TxStore) (c : List ℕ) (cs : List (List ℕ)) (m : Run ℕ)
    → Written s cs m
    → length c ≤ overflow_data
    → 0 < s.alloc_base
    → s.alloc_next + length (c ∷ cs) < 2 ^ 64
    → Written s (c ∷ cs) (
        m >>= λ next u.
        let (id, t) = alloc u in
        body_mut t id (λ page. done id (set_page t id (encode_overflow c next page))))
unfolding alloc
link-Written s c cs m w fits base small =
    let u = w.store in
    let n = next_id-IsNext u w.valid in
    let x = after_alloc-Extends u in
    let id = (alloc u).0 in
    let t = after_alloc u in
    let page = encode_overflow c w.first zeroed in
    let room : length zeroed ≡ body_size = refl in
    let keeps : Keeps u.dirty (set_page t id page).dirty = λ i p d.
      put_page-Keeps (next_id u).1.dirty id page
        (ap (λ (f : ℕ → Option (List ℕ)). f id) n.kept ∙ n.clean) i p
        (ap (λ (f : ℕ → Option (List ℕ)). f i) n.kept ∙ d) in
    record {
      first = id;
      store = set_page t id page;
      returns = rw (◌>>=◌, w.returns, body_mut, alloc-dirty u) refl;
      chain = (
        w.first,
        page,
        λ e. absurd (omega (arith, n.from, w.same_base, base, e)),
        put_same t.dirty id (some page),
        parse_overflow-encode_overflow id c w.first zeroed (omega (arith, room, fits))
            (omega (arith, room)) (omega (arith, w.first_below, w.grows, small)),
        Chain-Keeps u.dirty _ w.first cs keeps w.chain,
      );
      keeps = λ i p d. keeps i p (w.keeps i p d);
      valid =
          Steps-IsStore u (set_page t id page)
            (write-Steps u t id page zeroed (alloc-dirty u) (alloc-Steps u u stays)) w.valid;
      same_base = x.same_base ∙ w.same_base;
      grows = omega (arith, n.grows, w.grows);
      first_below = omega (arith, n.below);
    }

pub write_chunks-Written :
    (cs : List (List ℕ)) (s : TxStore)
    → IsStore s
    → All (λ c. length c ≤ overflow_data) cs
    → 0 < s.alloc_base
    → s.alloc_next + length cs < 2 ^ 64
    → Written s cs (write_chunks cs s)
unfolding write_chunks
write_chunks-Written [] s h fits base small = record {
  first = no_root;
  store = s;
  returns = refl;
  chain = refl;
  keeps = λ i p d. d;
  valid = h;
  same_base = refl;
  grows = omega arith;
  first_below = omega arith;
}
write_chunks-Written (c ∷ cs) s h (fit, fits) base small =
    link-Written s c cs (write_chunks cs s)
      (write_chunks-Written cs s h fits base (omega (arith, small))) fit base small

chunks-fit :
    (rounds size : ℕ) (bytes : List ℕ) → All (λ c. length c ≤ size) (chunks rounds size bytes)
unfolding chunks
chunks-fit zero size bytes = tt
chunks-fit (suc rounds) size [] = tt
chunks-fit (suc rounds) size (x ∷ bytes) =
    (omega (arith, length-take size (x ∷ bytes)), chunks-fit rounds size (drop size (x ∷ bytes)))

concat-chunks :
    (rounds size : ℕ) (bytes : List ℕ)
    → 0 < size
    → length bytes ≤ rounds
    → concat (chunks rounds size bytes) ≡ bytes
unfolding chunks
concat-chunks zero size [] h l = refl
concat-chunks zero size (x ∷ bytes) h l = absurd (omega (arith, l))
concat-chunks (suc rounds) size [] h l = refl
concat-chunks (suc rounds) size (x ∷ bytes) h l =
    ap (λ (r : List ℕ). take size (x ∷ bytes) ++ r)
      (concat-chunks rounds size (drop size (x ∷ bytes)) h
        (omega (arith, l, length-drop size (x ∷ bytes))))
    ∙ take-append-drop size (x ∷ bytes)

length-chunks : (rounds size : ℕ) (bytes : List ℕ) → length (chunks rounds size bytes) ≤ rounds
unfolding chunks
length-chunks zero size bytes = omega arith
length-chunks (suc rounds) size [] = omega arith
length-chunks (suc rounds) size (x ∷ bytes) =
    omega (arith, length-chunks rounds size (drop size (x ∷ bytes)))

-- On a store whose freed and dirty pages are apart and behind the durable ones, of which there is
-- at least one, and with room for page numbers below 2^64, write_chain succeeds, and reading the
-- overflow value at the page that it returns, on more fuel than the value has bytes, ends and
-- gives the value.
pub read_value-write_chain :
    (s : TxStore) (value : List ℕ) (fuel : ℕ)
    → IsStore s
    → 0 < s.alloc_base
    → s.alloc_next + length value < 2 ^ 64
    → length value < fuel
    → (first : ℕ) × (t : TxStore) × (write_chain s value ≡ done first t)
      × (read_value (body t) fuel (overflow (length value) first) ≡ Loop.done value)
unfolding write_chain read_value
read_value-write_chain s value fuel h base small room =
    let cs = chunks (length value) overflow_data value in
    let count : length cs ≤ length value = length-chunks (length value) overflow_data value in
    let w =
      write_chunks-Written cs s h (chunks-fit (length value) overflow_data value) base
        (omega (arith, small, count)) in
    let bytes = concat-chunks (length value) overflow_data value (omega arith) (omega arith) in
    let all =
      read_chain-Chain cs w.store fuel w.first [] w.chain (omega (arith, count, room))
      ∙ ap Loop.done bytes in
    let exact : (length value == length value) ≡ true = ground arith in
    (w.first, w.store, w.returns, rw (read_value, Loop.◌>>=◌, all, exact) refl)
