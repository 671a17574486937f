-- ===== src/Keyenc/Prefix.antt =====
-- Scan prefixes of text keys are prefixes of texts.
pub use arkeion.Common.Fields.{starts_with}
use arkeion.Common.{ℕ, zero, suc, ◌≡◌, refl, ap, arith, ◌&&◌, List, [], ◌∷◌, ◌==◌}
use arkeion.Record.{text}
use arkeion.Keyenc.{escape, encode_bytes, encode_text_prefix, encode_index_value}
use arkeion.Keyenc.Order.{encode_bytes-zero, encode_bytes-suc}

escape-zero : (bs : List ℕ) → escape (zero ∷ bs) ≡ zero ∷ 0xff ∷ escape bs
unfolding escape
escape-zero bs = refl

escape-suc : (b : ℕ) (bs : List ℕ) → escape (suc b ∷ bs) ≡ suc b ∷ escape bs
unfolding escape
escape-suc b bs = ground arith

starts_with-escape : (t s : List ℕ) → starts_with (encode_bytes t) (escape s) ≡ starts_with t s
starts_with-escape t [] = unfold escape in refl
starts_with-escape [] (zero ∷ s) = unfold encode_bytes escape in refl
starts_with-escape [] (suc b ∷ s) = rw (escape-suc b s) (unfold encode_bytes in ground arith)
starts_with-escape (zero ∷ t) (zero ∷ s) =
    rw (encode_bytes-zero t, escape-zero s) (starts_with-escape t s)
starts_with-escape (zero ∷ t) (suc b ∷ s) = rw (escape-suc b s, encode_bytes-zero t) (ground arith)
starts_with-escape (suc a ∷ t) (zero ∷ s) =
    rw (encode_bytes-suc a t) (unfold escape in ground arith)
starts_with-escape (suc a ∷ t) (suc b ∷ s) =
    rw (encode_bytes-suc a t, escape-suc b s)
      (ap (λ r. suc a == suc b && r) (starts_with-escape t s))

-- The scan prefix of a text is a prefix of the index entry of another text exactly when the
-- other text starts with it.
pub encode_text_prefix_iff :
    (t s : List ℕ)
    → starts_with (encode_index_value (text t)) (encode_text_prefix s) ≡ starts_with t s
unfolding encode_index_value encode_text_prefix
encode_text_prefix_iff t s = starts_with-escape t s
