-- ===== src/Vercmp/Words.antt =====
-- Two corners of src/vercmp.cpp: the pre-release word "a1", and an epoch of more than 64 bits.
use nano_sensor.Base.{
  ℕ, ◌+◌, ◌-◌, ◌*◌, ◌%◌, ◌≡◌, ◌≢◌, ◌∙◌, ap, true, List, [], ◌∷◌, ◌++◌, arith, All,
}
use nano_sensor.Text.{Bytes, codes, all, is_digit}
use nano_sensor.Vercmp.{Token, alpha, u64_mod, digits_loop, strip_epoch, tokenize}
use nano_sensor.Vercmp.Digits.{decimal}
use nano_sensor.Vercmp.Tokens.{IsScanned, tokenize-IsScanned}
use nano_sensor.Vercmp.Upstream.{strip_epoch_digits}

not_a1 : (ts : List Token) → All IsScanned ts → All (λ a. (a.kind ≡ alpha) → a.text ≢ codes "a1") ts
not_a1 [] h = tt
not_a1 (a ∷ ts) h = (λ k e. ground (arith, h.0), not_a1 ts h.1)

-- No token of any string is the word "a1", so that entry of the pre-release words never matches.
pub tokenize-ne_a1 : (v : Bytes) → All (λ a. (a.kind ≡ alpha) → a.text ≢ codes "a1") (tokenize v)
tokenize-ne_a1 v = not_a1 (tokenize v) (tokenize-IsScanned v)

digits_loop-mod :
    (acc n : ℕ) (ds : Bytes) → acc ≡ n % u64_mod → digits_loop acc ds ≡ decimal n ds % u64_mod
unfolding decimal
digits_loop-mod acc n [] h = h
digits_loop-mod acc n (d ∷ ds) h =
    digits_loop-mod ((acc * 10 + (d - b'0')) % u64_mod) (n * 10 + (d - b'0')) ds (omega arith)

-- The epoch of digits before a colon is their decimal value modulo 2 ^ 64: a longer epoch wraps.
pub strip_epoch-mod :
    (e rest : Bytes)
    → all is_digit e ≡ true
    → (strip_epoch (e ++ (b':' ∷ rest))).1 ≡ decimal 0 e % u64_mod
strip_epoch-mod e rest h =
    ap (λ (p : Bytes × ℕ). p.1) (strip_epoch_digits e rest h) ∙ digits_loop-mod 0 0 e (omega arith)
