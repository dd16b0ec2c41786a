-- ===== src/Vercmp/Tokens.antt =====
-- tokenize of src/vercmp.cpp: the fuel, the shape of its tokens, and separators.
use nano_sensor.Base.{
  ℕ, zero, suc, ◌+◌, ◌*◌, ◌-◌, ◌%◌, ◌≤◌, ◌<◌, ◌≡◌, ◌≢◌, refl, Bool, true, false, ◌&&◌, List, [],
  ◌∷◌, ◌++◌, map, arith, leb, ◌==◌, length, All, if◌then◌else◌,
}
use nano_sensor.Text.{Bytes, take_while, drop_while, all, is_digit, to_lower, length-drop_while}
use nano_sensor.Vercmp.{
  tilde, alpha, numeric, Token, u64_mod, is_alpha, digits_loop, digits_value, tilde_token,
  numeric_token, alpha_token, tokenize_loop, tokenize,
}

-- Any fuel from the length on gives the same tokens.
tokenize_loop_fuel :
    (f g : ℕ) (v : Bytes) → length v ≤ f → length v ≤ g → tokenize_loop f v ≡ tokenize_loop g v
unfolding tokenize_loop
tokenize_loop_fuel zero zero v hf hg = refl
tokenize_loop_fuel zero (suc g) [] hf hg = refl
tokenize_loop_fuel zero (suc g) (c ∷ v) hf hg = absurd (omega arith)
tokenize_loop_fuel (suc f) zero [] hf hg = refl
tokenize_loop_fuel (suc f) zero (c ∷ v) hf hg = absurd (omega arith)
tokenize_loop_fuel (suc f) (suc g) [] hf hg = refl
tokenize_loop_fuel (suc f) (suc g) (c ∷ v) hf hg = ground (
  arith,
  tokenize_loop_fuel f g v,
  tokenize_loop_fuel f g (drop_while is_digit v),
  tokenize_loop_fuel f g (drop_while is_alpha v),
  length-drop_while is_digit v,
  length-drop_while is_alpha v,
)

pub tokenize_loop-tokenize : (f : ℕ) (v : Bytes) → length v ≤ f → tokenize_loop f v ≡ tokenize v
unfolding tokenize
tokenize_loop-tokenize f v h = tokenize_loop_fuel f (length v) v h (omega arith)

tokenize_nil : tokenize [] ≡ []
unfolding tokenize tokenize_loop
tokenize_nil = refl

abbrev pub is_lower : ℕ → Bool
is_lower c = leb b'a' c && leb c b'z'

-- One round of the scan.
scan_step : ℕ → Bytes → List Token
scan_step c v =
    if c == b'~'
    then tilde_token ∷ tokenize v
    else if is_digit c
    then numeric_token (c ∷ take_while is_digit v) ∷ tokenize (drop_while is_digit v)
    else if is_alpha c
    then alpha_token (c ∷ take_while is_alpha v) ∷ tokenize (drop_while is_alpha v)
    else tokenize v

tokenize_cons : (c : ℕ) (v : Bytes) → tokenize (c ∷ v) ≡ scan_step c v
unfolding scan_step tokenize_loop
tokenize_cons c v =
    unfold tokenize in
    ground (
      arith,
      tokenize_loop_fuel (length v) (length (drop_while is_digit v)) (drop_while is_digit v),
      tokenize_loop_fuel (length v) (length (drop_while is_alpha v)) (drop_while is_alpha v),
      length-drop_while is_digit v,
      length-drop_while is_alpha v,
    )

take_while-append :
    (p : ℕ → Bool) (u : Bytes) (s : ℕ) (v : Bytes)
    → p s ≡ false
    → take_while p (u ++ (s ∷ v)) ≡ take_while p u
take_while-append p [] s v h = rw h
take_while-append p (x ∷ u) s v h = ground (arith, take_while-append p u s v h)

drop_while-append :
    (p : ℕ → Bool) (u : Bytes) (s : ℕ) (v : Bytes)
    → p s ≡ false
    → drop_while p (u ++ (s ∷ v)) ≡ drop_while p u ++ (s ∷ v)
drop_while-append p [] s v h = rw h
drop_while-append p (x ∷ u) s v h = ground (arith, drop_while-append p u s v h)

-- A byte that is no tilde, digit or letter.
abbrev pub IsSeparator : ℕ → Type 0
IsSeparator s = ((s == b'~') ≡ false) × (is_digit s ≡ false) × (is_alpha s ≡ false)

separator_split :
    (k : ℕ) (u : Bytes) (s : ℕ) (v : Bytes)
    → length u ≤ k
    → IsSeparator s
    → tokenize (u ++ (s ∷ v)) ≡ tokenize u ++ tokenize v
unfolding scan_step
separator_split k [] s v hk h = ground (arith, tokenize_cons s v, tokenize_nil)
separator_split zero (c ∷ u) s v hk h = absurd (omega arith)
separator_split (suc k) (c ∷ u) s v hk (ht, hd, ha) = ground (
  arith,
  tokenize_cons c (u ++ (s ∷ v)),
  tokenize_cons c u,
  take_while-append is_digit u s v hd,
  drop_while-append is_digit u s v hd,
  take_while-append is_alpha u s v ha,
  drop_while-append is_alpha u s v ha,
  length-drop_while is_digit u,
  length-drop_while is_alpha u,
  separator_split k u s v,
  separator_split k (drop_while is_digit u) s v,
  separator_split k (drop_while is_alpha u) s v,
)

-- A separator byte is a boundary and no content: the tokens of two parts that it joins are the
-- tokens of the first and then those of the second.
pub tokenize-separator :
    (u : Bytes) (s : ℕ) (v : Bytes)
    → IsSeparator s
    → tokenize (u ++ (s ∷ v)) ≡ tokenize u ++ tokenize v
tokenize-separator u s v h = separator_split (length u) u s v (omega arith) h

-- What the header says of a token: a tilde, a word in lower case, or a 64-bit number.
abbrev pub IsScanned : Token → Type 0
IsScanned a = elim a.kind [
  | tilde ↦ a.text ≡ []
  | alpha ↦ (a.text ≢ []) × (all is_lower a.text ≡ true)
  | numeric ↦ a.num < u64_mod
]

digits_loop-lt : (value : ℕ) (ds : Bytes) → value < u64_mod → digits_loop value ds < u64_mod
digits_loop-lt value [] h = h
digits_loop-lt value (d ∷ ds) h =
    digits_loop-lt ((value * 10 + (d - b'0')) % u64_mod) ds (omega arith)

digits_value-lt : (ds : Bytes) → digits_value ds < u64_mod
unfolding digits_value
digits_value-lt ds = ground (arith, digits_loop-lt 0 (drop_while (λ c. c == b'0') ds) (omega arith))

lower_word : (v : Bytes) → all is_lower (map to_lower (take_while is_alpha v)) ≡ true
lower_word [] = refl
lower_word (c ∷ v) = ground (arith, lower_word v)

IsScanned-fuel : (k : ℕ) (v : Bytes) → length v ≤ k → All IsScanned (tokenize v)
unfolding scan_step
IsScanned-fuel k [] h = rw tokenize_nil tt
IsScanned-fuel zero (c ∷ v) h = absurd (omega arith)
IsScanned-fuel (suc k) (c ∷ v) h = rw tokenize_cons (
    ground (
      arith,
      digits_value-lt (c ∷ take_while is_digit v),
      lower_word v,
      length-drop_while is_digit v,
      length-drop_while is_alpha v,
      IsScanned-fuel k v,
      IsScanned-fuel k (drop_while is_digit v),
      IsScanned-fuel k (drop_while is_alpha v),
    ))

-- Every token of every string is a tilde without text, a word of one lower-case letter or more, or
-- a number below 2 ^ 64.
pub tokenize-IsScanned : (v : Bytes) → All IsScanned (tokenize v)
tokenize-IsScanned v = IsScanned-fuel (length v) v (omega arith)
