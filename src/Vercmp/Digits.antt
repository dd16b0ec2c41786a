-- ===== src/Vercmp/Digits.antt =====
-- The value of a digit run in src/vercmp.cpp, against plain decimal notation.
use nano_sensor.Base.{
  ℕ, ◌+◌, ◌-◌, ◌*◌, ◌^◌, ◌≤◌, ◌<◌, ◌≡◌, refl, Bool, true, false, [], ◌∷◌, arith, ltb, ◌==◌,
  if◌then◌else◌, length, Bool-cases, inl, inr,
}
use native.Mathlib.Nat.{pow-suc, pow-le-pow_right, mod-eq_of_lt, mul-le-mul_right}
use nano_sensor.Text.{Bytes, all, is_digit, drop_while}
use nano_sensor.Vercmp.{u64_mod, digits_loop, digits_value}

-- The number that digits denote behind `acc`, with no bound on its size.
unfoldable pub decimal : ℕ → Bytes → ℕ
decimal acc [] = acc
decimal acc (d ∷ ds) = decimal (acc * 10 + (d - b'0')) ds

digit_small : (d : ℕ) → is_digit d ≡ true → d - b'0' + 1 ≤ 10
digit_small d h = ground arith

decimal_below :
    (acc : ℕ) (ds : Bytes) → all is_digit ds ≡ true → decimal acc ds < (acc + 1) * 10 ^ length ds
unfolding decimal
decimal_below acc [] h = omega arith
decimal_below acc (d ∷ ds) h =
    let small : d - b'0' + 1 ≤ 10 = digit_small d (ground arith) in
    rw (pow-suc 10 (length ds)) (
      omega (
        arith,
        decimal_below (acc * 10 + (d - b'0')) ds (ground arith),
        mul-le-mul_right (10 ^ length ds) small,
      ))

decimal_above : (acc : ℕ) (ds : Bytes) → acc * 10 ^ length ds ≤ decimal acc ds
unfolding decimal
decimal_above acc [] = omega arith
decimal_above acc (d ∷ ds) =
    rw (pow-suc 10 (length ds)) (omega (arith, decimal_above (acc * 10 + (d - b'0')) ds))

le-decimal : (acc : ℕ) (ds : Bytes) → acc ≤ decimal acc ds
unfolding decimal
le-decimal acc [] = omega arith
le-decimal acc (d ∷ ds) = omega (arith, le-decimal (acc * 10 + (d - b'0')) ds)

-- No wrap where the number is below the modulus.
digits_loop-decimal :
    (acc : ℕ) (ds : Bytes) → decimal acc ds < u64_mod → digits_loop acc ds ≡ decimal acc ds
unfolding decimal
digits_loop-decimal acc [] h = refl
digits_loop-decimal acc (d ∷ ds) h =
    let fits : acc * 10 + (d - b'0') < u64_mod =
      omega (arith, le-decimal (acc * 10 + (d - b'0')) ds) in
    rw (mod-eq_of_lt fits) (digits_loop-decimal (acc * 10 + (d - b'0')) ds h)

decimal-drop_zeros : (ds : Bytes) → decimal 0 (drop_while (λ c. c == b'0') ds) ≡ decimal 0 ds
unfolding decimal
decimal-drop_zeros [] = refl
decimal-drop_zeros (d ∷ ds) = ground (arith, decimal-drop_zeros ds)

all-drop_while : (p q : ℕ → Bool) (ds : Bytes) → all p ds ≡ true → all p (drop_while q ds) ≡ true
all-drop_while p q [] h = refl
all-drop_while p q (d ∷ ds) h = ground (arith, all-drop_while p q ds)

-- A run that begins with no zero.
leading_nonzero :
    (d : ℕ) (ds : Bytes)
    → is_digit d ≡ true
    → (d == b'0') ≡ false
    → 18 < length (d ∷ ds)
    → 10 ^ 18 ≤ decimal 0 (d ∷ ds)
unfolding decimal
leading_nonzero d ds h z l =
    let power : 10 ^ 18 ≤ 10 ^ length ds = pow-le-pow_right (omega arith) {i = 18} (omega arith) in
    let first : 1 ≤ d - b'0' = ground arith in
    omega (arith, decimal_above (0 * 10 + (d - b'0')) ds, mul-le-mul_right (10 ^ length ds) first)

trimmed_above :
    (ds : Bytes)
    → all is_digit ds ≡ true
    → 18 < length (drop_while (λ c. c == b'0') ds)
    → 10 ^ 18 ≤ decimal 0 (drop_while (λ c. c == b'0') ds)
trimmed_above [] h l = omega arith
trimmed_above (d ∷ ds) h l = elim (Bool-cases (d == b'0')) [
  | inl z ↦ rw z (trimmed_above ds (ground arith) (rw z at l))
  | inr z ↦ rw z (leading_nonzero d ds (ground arith) z (rw z at l))
]

-- A digit run below 10 ^ 18 has its decimal value, leading zeros or not, and any other run is
-- saturated at 2 ^ 64 - 1.
pub digits_value-decimal :
    (ds : Bytes)
    → all is_digit ds ≡ true
    → digits_value ds ≡ (if ltb (decimal 0 ds) (10 ^ 18) then decimal 0 ds else u64_mod - 1)
unfolding digits_value
digits_value-decimal ds h =
    let trimmed = drop_while (λ c. c == b'0') ds in
    let digits : all is_digit trimmed ≡ true = all-drop_while is_digit _ ds h in
    elim (Bool-cases (ltb 18 (length trimmed))) [
      | inl long ↦ rw long (ground (arith, decimal-drop_zeros ds, trimmed_above ds h))
      | inr short ↦
          let power : 10 ^ length trimmed ≤ 10 ^ 18 =
            pow-le-pow_right (omega arith) {j = 18} (ground arith) in
          rw short (
            ground (
              arith,
              decimal-drop_zeros ds,
              decimal_below 0 trimmed digits,
              digits_loop-decimal 0 trimmed,
            ))
    ]
