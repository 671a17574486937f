-- ===== src/Keyenc/Order.antt =====
-- keyenc.rs: the order of the bytes of index entries against the order of the values of a column.
use Prim.Native.Nat.Ordering.{lt, eq, gt}
use Prim.Native.Nat.{Ordering}
use arkeion.Common.{
  ℕ, zero, suc, ◌≡◌, refl, sym, ap, ◌∙◌, arith, compare, Bool, List, [], ◌∷◌, ◌++◌, if◌then◌else◌,
}
use arkeion.Common.Words.{IsU64, signed, compare_ℤ}
use arkeion.Common.Lex.{lex, then_cmp, then_cmp_assoc, compare-lt, compare-gt}
use arkeion.Record.{Value, null, bool, integer, real, text, blob}
use arkeion.Keyenc.{encode_bytes, encode_index_value}
use arkeion.Keyenc.Fixed.{rowid_be-order, real_be-order}
use arkeion.Keyenc.Real.{real_value, IsNumber, compare_signs, signed_real-order}

abbrev pub flag : Bool → ℕ
flag b = if b then 1 else 0

-- SQL's ascending order of the values of one column: NULL first, then as the type says; reals
-- compare as numbers, so that -0.0 and 0.0 are equal.
abbrev pub compare_value : Value → Value → Ordering
compare_value null null = eq
compare_value null w = lt
compare_value v null = gt
compare_value (bool a) (bool b) = compare (flag a) (flag b)
compare_value (integer a) (integer b) = compare_ℤ (signed a) (signed b)
compare_value (real a) (real b) = compare_ℤ (real_value a) (real_value b)
compare_value (text a) (text b) = lex a b
compare_value (blob a) (blob b) = lex a b
compare_value v w = eq

-- The order of index entries, which also tells the two zeros of the reals apart: -0.0 comes first.
abbrev pub compare_entry : Value → Value → Ordering
compare_entry (real a) (real b) = then_cmp (compare_value (real a) (real b)) (compare_signs a b)
compare_entry v w = compare_value v w

-- Two values that can stand in one column: of one type, or NULL; numbers are 64-bit patterns, and
-- no real is a NaN.
abbrev pub SameColumn : Value → Value → Type 0
SameColumn null w = Unit
SameColumn v null = Unit
SameColumn (bool a) (bool b) = Unit
SameColumn (integer a) (integer b) = IsU64 a × IsU64 b
SameColumn (real a) (real b) = (IsU64 a × IsNumber a) × (IsU64 b × IsNumber b)
SameColumn (text a) (text b) = Unit
SameColumn (blob a) (blob b) = Unit
SameColumn v w = ⊥

pub encode_bytes-zero : (bs : List ℕ) → encode_bytes (zero ∷ bs) ≡ 0x00 ∷ 0xff ∷ encode_bytes bs
unfolding encode_bytes
encode_bytes-zero bs = refl

pub encode_bytes-suc : (b : ℕ) (bs : List ℕ) → encode_bytes (suc b ∷ bs) ≡ suc b ∷ encode_bytes bs
unfolding encode_bytes
encode_bytes-suc b bs = ground arith

-- Escaped strings compare as the strings, and their terminator lets the rest decide.
pub encode_bytes-order :
    (a b xs ys : List ℕ)
    → lex (encode_bytes a ++ xs) (encode_bytes b ++ ys) ≡ then_cmp (lex a b) (lex xs ys)
encode_bytes-order [] [] xs ys = unfold encode_bytes in refl
encode_bytes-order [] (zero ∷ bs) xs ys = unfold encode_bytes in refl
encode_bytes-order [] (suc b ∷ bs) xs ys =
    rw (encode_bytes-suc b bs) (unfold encode_bytes in rw (compare-lt 0 (suc b) (omega arith)))
encode_bytes-order (zero ∷ rest) [] xs ys = unfold encode_bytes in refl
encode_bytes-order (suc a ∷ rest) [] xs ys =
    rw (encode_bytes-suc a rest) (unfold encode_bytes in rw (compare-gt (suc a) 0 (omega arith)))
encode_bytes-order (zero ∷ rest) (zero ∷ bs) xs ys =
    rw (encode_bytes-zero rest, encode_bytes-zero bs) (encode_bytes-order rest bs xs ys)
encode_bytes-order (zero ∷ rest) (suc b ∷ bs) xs ys =
    rw (encode_bytes-zero rest, encode_bytes-suc b bs, compare-lt 0 (suc b) (omega arith))
encode_bytes-order (suc a ∷ rest) (zero ∷ bs) xs ys =
    rw (encode_bytes-suc a rest, encode_bytes-zero bs, compare-gt (suc a) 0 (omega arith))
encode_bytes-order (suc a ∷ rest) (suc b ∷ bs) xs ys =
    rw (encode_bytes-suc a rest, encode_bytes-suc b bs)
      (ap (then_cmp (compare (suc a) (suc b))) (encode_bytes-order rest bs xs ys)
        ∙ sym (then_cmp_assoc (compare (suc a) (suc b)) (lex rest bs) (lex xs ys)))

-- The bytes of two index entries of one column, with any bytes behind them, compare as the
-- values do in SQL's ascending order, NULL first, where of two reals, neither of them a NaN,
-- that are equal as numbers, -0.0 comes before 0.0; where the entries are equal they compare as
-- what is behind them.
pub encode_index_value-order :
    (v w : Value) (xs ys : List ℕ)
    → SameColumn v w
    → lex (encode_index_value v ++ xs) (encode_index_value w ++ ys)
      ≡ then_cmp (compare_entry v w) (lex xs ys)
unfolding encode_index_value
encode_index_value-order null null xs ys h = refl
encode_index_value-order null (bool b) xs ys h = refl
encode_index_value-order null (integer b) xs ys h = refl
encode_index_value-order null (real b) xs ys h = refl
encode_index_value-order null (text b) xs ys h = refl
encode_index_value-order null (blob b) xs ys h = refl
encode_index_value-order (bool a) null xs ys h = refl
encode_index_value-order (integer a) null xs ys h = refl
encode_index_value-order (real a) null xs ys h = refl
encode_index_value-order (text a) null xs ys h = refl
encode_index_value-order (blob a) null xs ys h = refl
encode_index_value-order (bool a) (bool b) xs ys h = refl
encode_index_value-order (integer a) (integer b) xs ys h = rowid_be-order a b xs ys h.0 h.1
encode_index_value-order (real a) (real b) xs ys h =
    real_be-order a b xs ys h.0.0 h.1.0
    ∙ ap (λ (o : Ordering). then_cmp o (lex xs ys)) (signed_real-order a b)
encode_index_value-order (text a) (text b) xs ys h = encode_bytes-order a b xs ys
encode_index_value-order (blob a) (blob b) xs ys h = encode_bytes-order a b xs ys
encode_index_value-order v w xs ys h = elim h [ ]
