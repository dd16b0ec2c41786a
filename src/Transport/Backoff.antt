-- ===== src/Transport/Backoff.antt =====
-- The retry delay of src/transport.cpp.
use nano_sensor.Base.{
  ℕ, suc, ◌*◌, ◌%◌, ◌^◌, ◌≤◌, ◌<◌, ◌≡◌, ◌+◌, sym, ap, ◌∙◌, arith, ltb, if◌then◌else◌,
}
use native.Mathlib.Nat.{mul_assoc, pow-suc, pow-le-pow_right, mul-le-mul_left}
use nano_sensor.Base.Int.{ℤ, pos, negsuc}
use nano_sensor.Transport.{clamp, backoff_ceiling, backoff_delay_ms}

clamp-le : (attempt : ℤ) → clamp attempt ≤ 20
clamp-le (pos n) = ground arith
clamp-le (negsuc n) = ground arith

-- With a draw of the distribution that is in its range, no delay is above the cap, whatever the
-- attempt and the base, whose shift may overflow.
pub backoff_delay_ms-le :
    (dist : ℕ → ℕ) (attempt : ℤ) (base_ms cap_ms : ℕ)
    → ((n : ℕ) → dist n ≤ n)
    → backoff_delay_ms dist attempt base_ms cap_ms ≤ cap_ms
unfolding backoff_delay_ms backoff_ceiling
backoff_delay_ms-le dist attempt base_ms cap_ms h =
    ground (arith, h (backoff_ceiling attempt base_ms cap_ms))

-- The shift of a base below 2 ^ 43 does not overflow.
backoff_ceiling_closed :
    (attempt : ℤ) (base_ms cap_ms : ℕ)
    → 0 < base_ms
    → base_ms < 2 ^ 43
    → backoff_ceiling attempt base_ms cap_ms
      ≡ (if ltb cap_ms (base_ms * 2 ^ clamp attempt) then cap_ms else base_ms * 2 ^ clamp attempt)
unfolding backoff_ceiling
backoff_ceiling_closed attempt base_ms cap_ms hp hb =
    let small : 2 ^ clamp attempt ≤ 2 ^ 20 = pow-le-pow_right (omega arith) (clamp-le attempt) in
    let large : 2 ^ 0 ≤ 2 ^ clamp attempt = pow-le-pow_right (omega arith) {i = 0} (omega arith) in
    let above : base_ms * 2 ^ clamp attempt ≤ base_ms * 2 ^ 20 = mul-le-mul_left base_ms small in
    let below : base_ms * 2 ^ 0 ≤ base_ms * 2 ^ clamp attempt = mul-le-mul_left base_ms large in
    let whole : base_ms * 2 ^ clamp attempt % 2 ^ 64 ≡ base_ms * 2 ^ clamp attempt = omega arith in
    rw whole (ground arith)

-- n, or the cap.
abbrev pub capped : ℕ → ℕ → ℕ
capped cap_ms n = if ltb cap_ms n then cap_ms else n

clamp_above : (n : ℕ) → 20 ≤ n → clamp (pos n) ≡ clamp (pos 20)
clamp_above n h = ground (arith, h)

next_attempt :
    (n base_ms cap_ms : ℕ)
    → n < 20
    → backoff_ceiling (pos n) base_ms cap_ms ≡ capped cap_ms (base_ms * 2 ^ clamp (pos n))
    → backoff_ceiling (pos (n + 1)) base_ms cap_ms
      ≡ capped cap_ms (base_ms * 2 ^ clamp (pos (n + 1)))
    → backoff_ceiling (pos (n + 1)) base_ms cap_ms
      ≡ capped cap_ms (2 * backoff_ceiling (pos n) base_ms cap_ms)
next_attempt n base_ms cap_ms h here next =
    let now : clamp (pos n) ≡ n = ground (arith, h) in
    let later : clamp (pos (n + 1)) ≡ n + 1 = ground (arith, h) in
    let twice : base_ms * 2 ^ (n + 1) ≡ 2 * (base_ms * 2 ^ n) =
      (ap (λ (k : ℕ). base_ms * k)
          (ap (λ (k : ℕ). 2 ^ k) {x = n + 1} {y = suc n} (omega arith) ∙ pow-suc 2 n)
        ∙ sym (mul_assoc base_ms (2 ^ n) 2)
        ∙ omega arith) in
    next ∙ rw (later, here, now, twice) (ground arith)

-- For a base from 1 to 2 ^ 43 - 1: the ceiling of attempt 0 is the base, that of each next attempt up
-- to the twentieth is twice the one before, and both stop at the cap. Behind the twentieth it stays,
-- and a negative attempt has the ceiling of attempt 0.
pub backoff_ceiling-doubles :
    (base_ms cap_ms : ℕ)
    → 0 < base_ms
    → base_ms < 2 ^ 43
    → (backoff_ceiling (pos 0) base_ms cap_ms ≡ capped cap_ms base_ms)
      × ((n : ℕ)
          → n < 20
          → backoff_ceiling (pos (n + 1)) base_ms cap_ms
            ≡ capped cap_ms (2 * backoff_ceiling (pos n) base_ms cap_ms))
      × ((n : ℕ)
          → 20 ≤ n
          → backoff_ceiling (pos n) base_ms cap_ms ≡ backoff_ceiling (pos 20) base_ms cap_ms)
      × ((n : ℕ)
          → backoff_ceiling (negsuc n) base_ms cap_ms ≡ backoff_ceiling (pos 0) base_ms cap_ms)
backoff_ceiling-doubles base_ms cap_ms hp hb =
    let closed = λ (a : ℤ). backoff_ceiling_closed a base_ms cap_ms hp hb in
    (
      closed (pos 0) ∙ ap (capped cap_ms) (omega arith),
      (λ n below. next_attempt n base_ms cap_ms below (closed (pos n)) (closed (pos (n + 1)))),
      (λ n above.
          closed (pos n)
          ∙ ap (λ (k : ℕ). capped cap_ms (base_ms * 2 ^ k)) (clamp_above n above)
          ∙ sym (closed (pos 20))),
      λ n. closed (negsuc n) ∙ sym (closed (pos 0)),
    )
