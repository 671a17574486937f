-- ===== src/Common/Fields.antt =====
-- Fixed layouts in a byte buffer: `body[a..a + n].copy_from_slice(bytes)` and `&body[a..b]`.
-- The code indexes inside the buffer; the theorems state the lengths under which it does.
use Prim.Native.Nat.{ℕ, zero, suc, ◌+◌, ◌-◌, ◌≤◌}
use mathlib.Core.Path.{◌≡◌, refl, ap, ap₂, subst, sym, ◌∙◌}
use mathlib.Core.Bool.{Bool, true, false, ◌&&◌}
use mathlib.Core.List.{List, [], ◌∷◌, ◌++◌, append_assoc, append-nil}
use native.Mathlib.Omega.{arith}
use arkeion.Common.Tests.{◌==◌}
use arkeion.Common.Lists.{
  length, get_elem?, get_or, get_or-get_elem?, take, drop, length-append, length-take,
  take-append_length, drop-append_length, length-drop, drop-append_le,
}
use mathlib.Core.Option.{some, some-injective}
use arkeion.Common.Cursor.{At, At-start, At-append, At-get_elem?}

-- `body[a..a + bytes.len()].copy_from_slice(bytes)`
unfoldable pub write_at {ℓ} : {A : Type ℓ} → List A → ℕ → List A → List A
write_at body a bytes = take a body ++ (bytes ++ drop (a + length bytes) body)

-- `&body[a..b]`
unfoldable pub slice {ℓ} : {A : Type ℓ} → List A → ℕ → ℕ → List A
slice body a b = take (b - a) (drop a body)

-- `==` of byte slices.
abbrev pub eq_bytes : List ℕ → List ℕ → Bool
eq_bytes [] [] = true
eq_bytes (x ∷ xs) (y ∷ ys) = x == y && eq_bytes xs ys
eq_bytes _ _ = false

-- `xs.starts_with(prefix)`
abbrev pub starts_with : List ℕ → List ℕ → Bool
starts_with xs [] = true
starts_with [] (p ∷ ps) = false
starts_with (x ∷ xs) (p ∷ ps) = x == p && starts_with xs ps

pub eq_bytes_refl : (xs : List ℕ) → eq_bytes xs xs ≡ true
eq_bytes_refl [] = refl
eq_bytes_refl (x ∷ xs) = ground (arith, eq_bytes_refl xs)

pub eq_bytes→eq : (xs ys : List ℕ) → eq_bytes xs ys ≡ true → xs ≡ ys
eq_bytes→eq [] [] e = refl
eq_bytes→eq (x ∷ xs) (y ∷ ys) e = ground (arith, eq_bytes→eq xs ys)
eq_bytes→eq _ _ e = cc

module _ {ℓ} {A : Type ℓ} where
  take-drop-split : (body : List A) (a n : ℕ) → drop (a + n) body ≡ drop n (drop a body)
  take-drop-split body zero n = ap (λ k. drop k body) (omega arith)
  take-drop-split [] (suc a) n =
      let more : suc a + n ≡ suc (a + n) = omega arith in
      ap (λ k. drop {A = A} k []) more ∙ drop-nil n
    where
      drop-nil : (k : ℕ) → [] ≡ drop {A = A} k []
      drop-nil zero = refl
      drop-nil (suc k) = refl
  take-drop-split (x ∷ body) (suc a) n =
      let more : suc a + n ≡ suc (a + n) = omega arith in
      ap (λ k. drop k (x ∷ body)) more ∙ take-drop-split body a n

  -- Two writes of which the second begins where the first ends are one write.
  pub write_at-write_at :
      (body x y : List A) (a c : ℕ)
      → c ≡ a + length x
      → a + length x + length y ≤ length body
      → write_at (write_at body a x) c y ≡ write_at body a (x ++ y)
  unfolding write_at
  write_at-write_at body x y a c e h =
      ap₂ (λ f t. f ++ (y ++ t)) first last
      ∙ append_assoc (take a body) x _
      ∙ ap (λ l. take a body ++ l) tail
    where
      front : List A
      front = take a body ++ x

      back : List A
      back = drop (a + length x) body

      whole : take a body ++ (x ++ back) ≡ front ++ back
      whole = sym (append_assoc (take a body) x back)

      width : c ≡ length front
      width = omega (arith, length-append (take a body) x, length-take a body)

      first : take c (take a body ++ (x ++ back)) ≡ front
      first = ap (take c) whole ∙ take-append_length front back c width

      last : drop (c + length y) (take a body ++ (x ++ back)) ≡ drop (a + length (x ++ y)) body
      last =
          take-drop-split (take a body ++ (x ++ back)) c (length y)
          ∙ ap (λ l. drop (length y) (drop c l)) whole
          ∙ ap (drop (length y)) (drop-append_length front back c width)
          ∙ sym (take-drop-split body (a + length x) (length y))
          ∙ ap (λ n. drop n body) (omega (arith, length-append x y))

      tail :
          x ++ (y ++ drop (a + length (x ++ y)) body) ≡ (x ++ y) ++ drop (a + length (x ++ y)) body
      tail = sym (append_assoc x y _)

  pub At-slice :
      (buf xs rest : List A) (a b : ℕ)
      → At buf a (xs ++ rest)
      → b ≡ a + length xs
      → slice buf a b ≡ xs
  unfolding slice
  At-slice buf xs rest a b h e =
      ap (λ l. take (b - a) (drop a l)) h.splits
      ∙ ap (λ l. take (b - a) l) (drop-append_length h.before (xs ++ rest) a h.length_before)
      ∙ take-append_length xs rest (b - a) (omega arith)

-- A layout: the writes of an encoder, in order, each with its offset.
abbrev pub Writes : Type 0
Writes = List (ℕ × List ℕ)

unfoldable pub write_all : List ℕ → Writes → List ℕ
write_all body [] = body
write_all body ((a, x) ∷ ws) = write_all (write_at body a x) ws

-- Each write begins where the one before it ends, and the last ends at `end`.
abbrev pub Contiguous : ℕ → Writes → ℕ → Type 0
Contiguous a [] end = a ≡ end
Contiguous a ((b, x) ∷ ws) end = (b ≡ a) × Contiguous (a + length x) ws end

abbrev pub contents : Writes → List ℕ
contents [] = []
contents ((a, x) ∷ ws) = x ++ contents ws

Contiguous-length :
    (a : ℕ) (ws : Writes) (end : ℕ) → Contiguous a ws end → a + length (contents ws) ≡ end
Contiguous-length a [] end c = omega arith
Contiguous-length a ((b, x) ∷ ws) end c =
    omega (arith, length-append x (contents ws), Contiguous-length (a + length x) ws end c.1)

write_all-write_at :
    (body x : List ℕ) (a : ℕ) (ws : Writes) (end : ℕ)
    → Contiguous (a + length x) ws end
    → end ≤ length body
    → write_all (write_at body a x) ws ≡ write_at body a (x ++ contents ws)
unfolding write_all
write_all-write_at body x a [] end c h = ap (write_at body a) (sym (append-nil x))
write_all-write_at body x a ((b, y) ∷ ws) end c h =
    let total = Contiguous-length (a + length x + length y) ws end c.1 in
    let joined : a + length x + length y ≡ a + length (x ++ y) = omega (arith, length-append x y) in
    ap (λ l. write_all l ws) (write_at-write_at body x y a b c.0 (omega arith))
    ∙ write_all-write_at body (x ++ y) a ws end (subst (λ n. Contiguous n ws end) joined c.1) h
    ∙ ap (write_at body a) (append_assoc x y (contents ws))

write_at_start : (body x : List ℕ) → write_at body 0 x ≡ x ++ drop (length x) body
unfolding write_at
write_at_start body x = ap (λ n. x ++ drop n body) (omega arith)

-- Contiguous writes from the start leave their contents in front of the rest of the body.
pub write_all-contents :
    (body : List ℕ) (ws : Writes) (end : ℕ)
    → Contiguous 0 ws end
    → end ≤ length body
    → write_all body ws ≡ contents ws ++ drop end body
unfolding write_all
write_all-contents body [] end c h = ap (λ n. drop n body) c
write_all-contents body ((b, x) ∷ ws) end c h =
    ap (λ n. write_all (write_at body n x) ws) c.0
    ∙ write_all-write_at body x 0 ws end c.1 h
    ∙ write_at_start body (x ++ contents ws)
    ∙ ap (λ n. (x ++ contents ws) ++ drop n body)
        (omega (arith, length-append x (contents ws), Contiguous-length (0 + length x) ws end c.1))

At-contents :
    (buf rest : List ℕ) (ws : Writes) (end pos i a : ℕ) (x : List ℕ)
    → Contiguous pos ws end
    → At buf pos (contents ws ++ rest)
    → get_elem? ws i ≡ some (a, x)
    → (r : List ℕ) × At buf a (x ++ r)
At-contents buf rest [] end pos i a x c at e = cc
At-contents buf rest ((b, y) ∷ ws) end pos zero a x c at e =
    let here : At buf pos (y ++ (contents ws ++ rest)) =
      rw (append_assoc y (contents ws) rest) at at in
    let pair : ◌≡◌ {A = ℕ × List ℕ} (b, y) (a, x) = some-injective (b, y) (a, x) e in
    let place : pos ≡ a = sym c.0 ∙ ap (λ p. p.0) pair in
    let bytes : y ≡ x = ap (λ p. p.1) pair in
    (
      contents ws ++ rest,
      subst (λ l. At buf a (l ++ (contents ws ++ rest))) bytes
          (subst (λ n. At buf n (y ++ (contents ws ++ rest))) place here),
    )
At-contents buf rest ((b, y) ∷ ws) end pos (suc i) a x c at e =
    At-contents buf rest ws end (pos + length y) i a x c.1
      (At-append buf y (contents ws ++ rest) pos (rw (append_assoc y (contents ws) rest) at at)) e

-- What a contiguous layout wrote as its `i`-th field is read back at the field's place.
pub slice-write_all :
    (body : List ℕ) (ws : Writes) (end i a b : ℕ) (x : List ℕ)
    → Contiguous 0 ws end
    → end ≤ length body
    → get_elem? ws i ≡ some (a, x)
    → b ≡ a + length x
    → slice (write_all body ws) a b ≡ x
slice-write_all body ws end i a b x c h e w =
    let start = At-start (contents ws ++ drop end body) in
    let (r, there) =
      At-contents (contents ws ++ drop end body) (drop end body) ws end 0 i a x c start e in
    ap (λ l. slice l a b) (write_all-contents body ws end c h)
    ∙ At-slice (contents ws ++ drop end body) x r a b there w

-- The same for a field of one byte, which is read by its index.
pub get_or-write_all :
    (body : List ℕ) (ws : Writes) (end i a x d : ℕ)
    → Contiguous 0 ws end
    → end ≤ length body
    → get_elem? ws i ≡ some (a, x ∷ [])
    → get_or (write_all body ws) a d ≡ x
get_or-write_all body ws end i a x d c h e =
    let whole : List ℕ = contents ws ++ drop end body in
    let (r, there) = At-contents whole (drop end body) ws end 0 i a (x ∷ []) c (At-start whole) e in
    ap (λ l. get_or l a d) (write_all-contents body ws end c h)
    ∙ get_or-get_elem? whole a d x (At-get_elem? whole x r a there)

-- A second write over the front of the first.
pub write_at_over :
    (body z x : List ℕ) (a : ℕ)
    → length x ≤ length z
    → a + length z ≤ length body
    → write_at (write_at body a z) a x ≡ write_at body a (x ++ drop (length x) z)
unfolding write_at
write_at_over body z x a short fits =
    ap₂ (λ f t. f ++ (x ++ t)) first last ∙ ap (λ l. front ++ l) joined
  where
    front : List ℕ
    front = take a body

    back : List ℕ
    back = drop (a + length z) body

    width : a ≡ length front
    width = omega (arith, length-take a body)

    first : take a (front ++ (z ++ back)) ≡ front
    first = take-append_length front (z ++ back) a width

    last : drop (a + length x) (front ++ (z ++ back)) ≡ drop (length x) z ++ back
    last =
        take-drop-split (front ++ (z ++ back)) a (length x)
        ∙ ap (drop (length x)) (drop-append_length front (z ++ back) a width)
        ∙ drop-append_le z back (length x) short

    whole : length (x ++ drop (length x) z) ≡ length z
    whole = omega (arith, length-append x (drop (length x) z), length-drop (length x) z)

    joined :
        x ++ (drop (length x) z ++ back)
        ≡ (x ++ drop (length x) z) ++ drop (a + length (x ++ drop (length x) z)) body
    joined =
        sym (append_assoc x (drop (length x) z) back)
        ∙ ap (λ (n : ℕ). (x ++ drop (length x) z) ++ drop (a + n) body) (sym whole)

pub length-write_all :
    (body : List ℕ) (ws : Writes) (end : ℕ)
    → Contiguous 0 ws end
    → end ≤ length body
    → length (write_all body ws) ≡ length body
length-write_all body ws end c h = omega (
  arith,
  ap (λ (l : List ℕ). length l) (write_all-contents body ws end c h),
  length-append (contents ws) (drop end body),
  Contiguous-length 0 ws end c,
  length-drop end body,
)
