-- ===== src/Vercmp/Order.antt =====
-- The signs of the comparisons of src/vercmp.cpp.
use nano_sensor.Base.{◌≡◌, refl, ◌⊎◌, inl, inr, List, [], ◌∷◌, arith, if◌then◌else◌}
use nano_sensor.Base.Int.{ℤ, pos, minus_one, neg, neg-neg}
use nano_sensor.Text.{Bytes, bytes_eq, bytes_lt}
use nano_sensor.Vercmp.{
  Token, cmp_token, cmp_remainder, cmp_tokens, strip_epoch, tokenize, version_compare,
}

-- A three-way comparison of two strings, as cmp_token makes it.
abbrev pub cmp_text : Bytes → Bytes → ℤ
cmp_text s t = if bytes_eq s t then pos 0 else if bytes_lt s t then minus_one else pos 1

cmp_text-neg : (s t : Bytes) → cmp_text t s ≡ neg (cmp_text s t)
cmp_text-neg [] [] = refl
cmp_text-neg [] (y ∷ t) = refl
cmp_text-neg (x ∷ s) [] = refl
cmp_text-neg (x ∷ s) (y ∷ t) = ground (arith, cmp_text-neg s t)

cmp_token-neg : (a b : Token) → cmp_token b a ≡ neg (cmp_token a b)
unfolding cmp_token
cmp_token-neg a b = ground (arith, cmp_text-neg a.text b.text)

pub cmp_tokens-neg : (s t : List Token) → cmp_tokens t s ≡ neg (cmp_tokens s t)
unfolding cmp_tokens
cmp_tokens-neg [] [] = refl
cmp_tokens-neg [] (b ∷ t) = rw neg-neg
cmp_tokens-neg (a ∷ s) [] = refl
cmp_tokens-neg (a ∷ s) (b ∷ t) = ground (arith, cmp_token-neg a b, cmp_tokens-neg s t)

-- Swapping the arguments negates the result, for all pairs of strings.
pub version_compare-neg : (a b : Bytes) → version_compare b a ≡ neg (version_compare a b)
unfolding version_compare
version_compare-neg a b =
    ground (arith, cmp_tokens-neg (tokenize (strip_epoch a).0) (tokenize (strip_epoch b).0))

-- One of -1, 0 and 1.
abbrev pub IsSign : ℤ → Type 0
IsSign c = (c ≡ minus_one) ⊎ ((c ≡ pos 0) ⊎ (c ≡ pos 1))

cmp_token-IsSign : (a b : Token) → IsSign (cmp_token a b)
unfolding cmp_token
cmp_token-IsSign a b = ground arith

cmp_remainder-IsSign : (s : List Token) → IsSign (cmp_remainder s)
unfolding cmp_remainder
cmp_remainder-IsSign [] = inr (inl refl)
cmp_remainder-IsSign (a ∷ s) = ground arith

cmp_tokens-IsSign : (s t : List Token) → IsSign (cmp_tokens s t)
unfolding cmp_tokens
cmp_tokens-IsSign [] [] = inr (inl refl)
cmp_tokens-IsSign [] (b ∷ t) = ground (arith, cmp_remainder-IsSign (b ∷ t))
cmp_tokens-IsSign (a ∷ s) [] = cmp_remainder-IsSign (a ∷ s)
cmp_tokens-IsSign (a ∷ s) (b ∷ t) = ground (arith, cmp_token-IsSign a b, cmp_tokens-IsSign s t)

-- The result is -1, 0 or 1, for all pairs of strings.
pub version_compare-IsSign : (a b : Bytes) → IsSign (version_compare a b)
unfolding version_compare
version_compare-IsSign a b =
    ground (arith, cmp_tokens-IsSign (tokenize (strip_epoch a).0) (tokenize (strip_epoch b).0))
