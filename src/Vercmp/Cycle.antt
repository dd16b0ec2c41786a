-- ===== src/Vercmp/Cycle.antt =====
-- version_compare of src/vercmp.cpp on a release, its pre-releases and its patches.
use nano_sensor.Base.{◌≡◌, Bool, true, false, List, [], ◌∷◌, ◌++◌, arith}
use nano_sensor.Base.Int.{pos, minus_one}
use nano_sensor.Text.{Bytes, bytes_lt, bytes_eq, bytes_eq_refl}
use nano_sensor.Vercmp.{
  alpha, Token, is_prerelease_word, cmp_token, cmp_remainder, cmp_tokens, strip_epoch,
  version_compare,
}
use nano_sensor.Vercmp.Transitive.{tokens_of}

bytes_lt-ne : (s t : Bytes) → bytes_lt s t ≡ true → bytes_eq s t ≡ false
bytes_lt-ne [] [] h = ground arith
bytes_lt-ne [] (y ∷ t) h = ground arith
bytes_lt-ne (x ∷ s) [] h = ground arith
bytes_lt-ne (x ∷ s) (y ∷ t) h = ground (arith, bytes_lt-ne s t)

cmp_token_self : (a : Token) → cmp_token a a ≡ pos 0
unfolding cmp_token
cmp_token_self a = ground (arith, bytes_eq_refl a.text)

-- The word of a token that is letters and marks a pre-release, or letters and does not.
abbrev pub IsWord : Bool → Token → Type 0
IsWord b a = (a.kind ≡ alpha) × (is_prerelease_word a.text ≡ b)

module _ (pre patch : Token) (r q : List Token) (is_pre : IsWord true pre)
    (is_patch : IsWord false patch) (below : bytes_lt patch.text pre.text ≡ true) where
  pre_before : (ts : List Token) → cmp_tokens (ts ++ (pre ∷ r)) ts ≡ minus_one
  unfolding cmp_tokens cmp_remainder
  pre_before [] = ground arith
  pre_before (a ∷ ts) = ground (arith, cmp_token_self a, pre_before ts)

  patch_behind : (ts : List Token) → cmp_tokens ts (ts ++ (patch ∷ q)) ≡ minus_one
  unfolding cmp_tokens cmp_remainder
  patch_behind [] = ground arith
  patch_behind (a ∷ ts) = ground (arith, cmp_token_self a, patch_behind ts)

  patch_before_pre :
      (ts : List Token) → cmp_tokens (ts ++ (patch ∷ q)) (ts ++ (pre ∷ r)) ≡ minus_one
  unfolding cmp_tokens cmp_token
  patch_before_pre [] = ground (arith, bytes_lt-ne patch.text pre.text)
  patch_before_pre (a ∷ ts) = ground (arith, cmp_token_self a, patch_before_pre ts)

-- Let `base` be a version with the tokens ts, `with_pre` one with ts and then a pre-release word,
-- and `with_patch` one with ts and then another word that is lexicographically smaller, all with
-- one epoch and with any tokens behind the word. Then the three compare in a circle: with_pre is
-- less than base, base less than with_patch, and with_patch less than with_pre.
pub version_compare-cycle :
    (base with_pre with_patch : Bytes) (ts r q : List Token) (pre patch : Token)
    → IsWord true pre
    → IsWord false patch
    → bytes_lt patch.text pre.text ≡ true
    → tokens_of base ≡ ts
    → tokens_of with_pre ≡ ts ++ (pre ∷ r)
    → tokens_of with_patch ≡ ts ++ (patch ∷ q)
    → (strip_epoch with_pre).1 ≡ (strip_epoch base).1
    → (strip_epoch with_patch).1 ≡ (strip_epoch base).1
    → (version_compare with_pre base ≡ minus_one)
      × (version_compare base with_patch ≡ minus_one)
      × (version_compare with_patch with_pre ≡ minus_one)
unfolding version_compare
version_compare-cycle base with_pre with_patch ts r q pre patch hw hp lt tb tw tp ew ep = ground (
  arith,
  pre_before pre patch r q hw hp lt ts,
  patch_behind pre patch r q hw hp lt ts,
  patch_before_pre pre patch r q hw hp lt ts,
)
