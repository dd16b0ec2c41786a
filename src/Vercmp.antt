-- ===== src/Vercmp.antt =====
-- src/vercmp.cpp and include/ns/vercmp.hpp: software version comparison. A string_view is the
-- list of its bytes, and the index of a loop is the list that it has not reached.
pub mod Order
pub mod Transitive
pub mod Cycle
pub mod Digits
pub mod Upstream
pub mod Tokens
pub mod Range
pub mod Words
mod Tests
use nano_sensor.Base.{
  ℕ, zero, suc, ◌+◌, ◌-◌, ◌*◌, ◌%◌, ◌^◌, Bool, true, false, not, ◌&&◌, ◌||◌, Option, none, some,
  List, [], ◌∷◌, map, ltb, leb, ◌==◌, if◌then◌else◌, length, take, drop,
}
use nano_sensor.Base.Int.{ℤ, pos, minus_one, neg, is_nonzero, is_negative, is_positive}
use nano_sensor.Text.{
  Bytes, codes, bytes_eq, bytes_lt, find, rfind, take_while, drop_while, all, is_digit, to_lower,
}

pub data Kind : Type 0 where
  tilde alpha numeric : Kind

pub record Token : Type 0 where
  pub kind : Kind
  pub text : Bytes
  pub num : ℕ

-- unsigned long long
abbrev pub u64_mod : ℕ
u64_mod = 2 ^ 64

abbrev pub is_alpha : ℕ → Bool
is_alpha c = (leb b'a' c && leb c b'z') || (leb b'A' c && leb c b'Z')

abbrev pub member : Bytes → List Bytes → Bool
member s [] = false
member s (w ∷ ws) = bytes_eq s w || member s ws

abbrev pub prerelease_words : List Bytes
prerelease_words =
    codes "rc"
    ∷ codes "alpha"
    ∷ codes "beta"
    ∷ codes "pre"
    ∷ codes "dev"
    ∷ codes "preview"
    ∷ codes "snapshot"
    ∷ codes "nightly"
    ∷ codes "a1"
    ∷ []

unfoldable pub is_prerelease_word : Bytes → Bool
is_prerelease_word s = member s prerelease_words

-- `value = value * 10 + (d - '0')` over the digits that are left.
abbrev pub digits_loop : ℕ → Bytes → ℕ
digits_loop value [] = value
digits_loop value (d ∷ ds) = digits_loop ((value * 10 + (d - b'0')) % u64_mod) ds

-- The value of a run of digits: no leading zeros, and saturated beyond 18 digits.
unfoldable pub digits_value : Bytes → ℕ
digits_value digits =
    let trimmed = drop_while (λ c. c == b'0') digits in
    if ltb 18 (length trimmed) then u64_mod - 1 else digits_loop 0 trimmed

abbrev pub tilde_token : Token
tilde_token = record { kind = tilde; text = []; num = 0 }

abbrev pub numeric_token : Bytes → Token
numeric_token digits = record { kind = numeric; text = []; num = digits_value digits }

abbrev pub alpha_token : Bytes → Token
alpha_token word = record { kind = alpha; text = map to_lower word; num = 0 }

-- The scan from `i` on; each round takes a byte at least, so the length is enough fuel.
unfoldable pub tokenize_loop : ℕ → Bytes → List Token
tokenize_loop zero v = []
tokenize_loop (suc fuel) [] = []
tokenize_loop (suc fuel) (c ∷ v) =
    let next = tokenize_loop fuel v in
    let digits = take_while is_digit (c ∷ v) in
    let after_digits = tokenize_loop fuel (drop_while is_digit (c ∷ v)) in
    let word = take_while is_alpha (c ∷ v) in
    let after_word = tokenize_loop fuel (drop_while is_alpha (c ∷ v)) in
    if c == b'~'
    then tilde_token ∷ next
    else if is_digit c
    then numeric_token digits ∷ after_digits
    else if is_alpha c
    then alpha_token word ∷ after_word
    else next

unfoldable pub tokenize : Bytes → List Token
tokenize v = tokenize_loop (length v) v

abbrev pub rank : Kind → ℕ
rank tilde = 0
rank alpha = 1
rank numeric = 2

abbrev pub kind_eq : Kind → Kind → Bool
kind_eq tilde tilde = true
kind_eq alpha alpha = true
kind_eq numeric numeric = true
kind_eq _ _ = false

-- The comparison of two tokens of one kind.
abbrev pub cmp_same_kind : Kind → Token → Token → ℤ
cmp_same_kind tilde a b = pos 0
cmp_same_kind alpha a b =
    if bytes_eq a.text b.text then pos 0 else if bytes_lt a.text b.text then minus_one else pos 1
cmp_same_kind numeric a b =
    if a.num == b.num then pos 0 else if ltb a.num b.num then minus_one else pos 1

unfoldable pub cmp_token : Token → Token → ℤ
cmp_token a b =
    if not (kind_eq a.kind b.kind)
    then (if ltb (rank a.kind) (rank b.kind) then minus_one else pos 1)
    else cmp_same_kind a.kind a b

-- The tokens from `from` on.
unfoldable pub cmp_remainder : List Token → ℤ
cmp_remainder [] = pos 0
cmp_remainder (next ∷ rest) =
    if kind_eq next.kind tilde
    then minus_one
    else if kind_eq next.kind alpha && is_prerelease_word next.text
    then minus_one
    else pos 1

-- The loop over the common length, and what is left of the longer side.
unfoldable pub cmp_tokens : List Token → List Token → ℤ
cmp_tokens [] [] = pos 0
cmp_tokens (a ∷ ta) [] = cmp_remainder (a ∷ ta)
cmp_tokens [] (b ∷ tb) = neg (cmp_remainder (b ∷ tb))
cmp_tokens (a ∷ ta) (b ∷ tb) =
    let c = cmp_token a b in let rest = cmp_tokens ta tb in if is_nonzero c then c else rest

-- The view and the epoch, at the first colon if there is one. The sum wraps at 64 bits.
abbrev pub strip_at : Option ℕ → Bytes → Bytes × ℕ
strip_at none v = (v, 0)
strip_at (some colon) v =
    if all is_digit (take colon v)
    then (drop (suc colon) v, digits_loop 0 (take colon v))
    else (v, 0)

unfoldable pub strip_epoch : Bytes → Bytes × ℕ
strip_epoch v = strip_at (find b':' v) v

unfoldable pub version_compare : Bytes → Bytes → ℤ
version_compare a b =
    let (rest_a, epoch_a) = strip_epoch a in
    let (rest_b, epoch_b) = strip_epoch b in
    if not (epoch_a == epoch_b)
    then (if ltb epoch_a epoch_b then minus_one else pos 1)
    else cmp_tokens (tokenize rest_a) (tokenize rest_b)

abbrev pub is_empty : Bytes → Bool
is_empty [] = true
is_empty (x ∷ xs) = false

unfoldable pub version_in_range : Bytes → Bytes → Bytes → Bytes → Bytes → Bool
version_in_range v start_including start_excluding end_including end_excluding =
    if not (is_empty start_including) && is_negative (version_compare v start_including)
    then false
    else if not (is_empty start_excluding) && not (is_positive (version_compare v start_excluding))
    then false
    else if not (is_empty end_including) && is_positive (version_compare v end_including)
    then false
    else if not (is_empty end_excluding) && not (is_negative (version_compare v end_excluding))
    then false
    else true

-- The view up to an index, the whole view at npos.
abbrev pub up_to : Option ℕ → Bytes → Bytes
up_to none v = v
up_to (some i) v = take i v

unfoldable pub version_upstream_part : Bytes → Bytes
version_upstream_part v =
    let rest = (strip_epoch v).0 in
    let upstream = up_to (rfind b'-' rest) rest in up_to (find b'+' upstream) upstream
