-- ===== src/Vercmp/Transitive.antt =====
-- version_compare of src/vercmp.cpp on three versions in a row.
use nano_sensor.Base.{◌≡◌, false, List, [], ◌∷◌, arith, ◌&&◌}
use nano_sensor.Base.Int.{ℤ, pos, minus_one}
use nano_sensor.Text.{Bytes}
use nano_sensor.Vercmp.{
  alpha, Token, kind_eq, is_prerelease_word, cmp_token, cmp_remainder, cmp_tokens, strip_epoch,
  tokenize, version_compare,
}
use nano_sensor.Vercmp.Order.{cmp_text}

-- What the results of two comparisons in a row say of the third.
pub record Composes (ab bc ac : ℤ) : Type 0 where
  pub lt_lt : ab ≡ minus_one → bc ≡ minus_one → ac ≡ minus_one
  pub lt_eq : ab ≡ minus_one → bc ≡ pos 0 → ac ≡ minus_one
  pub eq_lt : ab ≡ pos 0 → bc ≡ minus_one → ac ≡ minus_one
  pub eq_eq : ab ≡ pos 0 → bc ≡ pos 0 → ac ≡ pos 0

cmp_text-Composes : (s t u : Bytes) → Composes (cmp_text s t) (cmp_text t u) (cmp_text s u)
cmp_text-Composes [] [] [] = ground arith
cmp_text-Composes [] [] (z ∷ u) = ground arith
cmp_text-Composes [] (y ∷ t) [] = ground arith
cmp_text-Composes [] (y ∷ t) (z ∷ u) = ground arith
cmp_text-Composes (x ∷ s) [] [] = ground arith
cmp_text-Composes (x ∷ s) [] (z ∷ u) = ground arith
cmp_text-Composes (x ∷ s) (y ∷ t) [] = ground arith
cmp_text-Composes (x ∷ s) (y ∷ t) (z ∷ u) = ground (arith, cmp_text-Composes s t u)

cmp_token-Composes : (a b c : Token) → Composes (cmp_token a b) (cmp_token b c) (cmp_token a c)
unfolding cmp_token
cmp_token-Composes a b c = ground (arith, cmp_text-Composes a.text b.text c.text)

-- The token is no pre-release word.
abbrev pub IsReleaseToken : Token → Type 0
IsReleaseToken a = (kind_eq a.kind alpha && is_prerelease_word a.text) ≡ false

abbrev pub IsRelease : List Token → Type 0
IsRelease [] = Unit
IsRelease (a ∷ s) = IsReleaseToken a × IsRelease s

cmp_tokens-Composes :
    (s t u : List Token)
    → IsRelease s
    → IsRelease t
    → IsRelease u
    → Composes (cmp_tokens s t) (cmp_tokens t u) (cmp_tokens s u)
unfolding cmp_tokens cmp_remainder
cmp_tokens-Composes [] [] [] hs ht hu = ground arith
cmp_tokens-Composes [] [] (c ∷ u) hs ht hu = ground arith
cmp_tokens-Composes [] (b ∷ t) [] hs ht hu = ground arith
cmp_tokens-Composes [] (b ∷ t) (c ∷ u) hs ht hu = unfold cmp_token in ground arith
cmp_tokens-Composes (a ∷ s) [] [] hs ht hu = ground arith
cmp_tokens-Composes (a ∷ s) [] (c ∷ u) hs ht hu = unfold cmp_token in ground arith
cmp_tokens-Composes (a ∷ s) (b ∷ t) [] hs ht hu = unfold cmp_token in ground arith
cmp_tokens-Composes (a ∷ s) (b ∷ t) (c ∷ u) hs ht hu =
    ground (arith, cmp_token-Composes a b c, cmp_tokens-Composes s t u)

-- The tokens behind the epoch.
abbrev pub tokens_of : Bytes → List Token
tokens_of v = tokenize (strip_epoch v).0

-- On versions whose tokens hold no pre-release word, version_compare is transitive: the results
-- "less" and "equal" compose as those of an order do.
pub version_compare-Composes :
    (a b c : Bytes)
    → IsRelease (tokens_of a)
    → IsRelease (tokens_of b)
    → IsRelease (tokens_of c)
    → Composes (version_compare a b) (version_compare b c) (version_compare a c)
unfolding version_compare
version_compare-Composes a b c ha hb hc =
    ground (arith, cmp_tokens-Composes (tokens_of a) (tokens_of b) (tokens_of c) ha hb hc)
