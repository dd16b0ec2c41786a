-- ===== src/Base/Bits.antt =====
-- The masks and fields of 32-bit words as arithmetic: `&` with a byte mask, `|` of disjoint
-- fields, and the width of `^`.
use Prim.Native.Nat.{
  ℕ, zero, suc, ◌+◌, ◌*◌, ◌/◌, ◌%◌, ◌^◌, ◌≤◌, ◌<◌, max, min, bit_and, bit_or, bit_xor, digits,
  bitwise, bit_and-bitwise, bit_or-bitwise, bit_xor-bitwise, differ,
}
use mathlib.Core.Path.{◌≡◌, refl, ap}
use native.Mathlib.Nat.{pow-suc}
use native.Mathlib.Omega.{arith}

module _ (empty : ℕ → ℕ) (join : ℕ → ℕ → ℕ) where
  -- Fuel above the first number makes no difference.
  more_fuel : (m n a b : ℕ) → a ≤ m → a ≤ n → digits empty join m a b ≡ digits empty join n a b
  more_fuel zero zero a b hm hn = refl
  more_fuel (suc m) (suc n) zero b hm hn = refl
  more_fuel (suc m) (suc n) (suc a) b hm hn =
      rw (more_fuel m n (suc a / 2) (b / 2) (omega arith) (omega arith))
  more_fuel zero (suc n) zero b hm hn = refl
  more_fuel zero (suc n) (suc a) b hm hn = absurd (omega arith)
  more_fuel (suc m) zero zero b hm hn = refl
  more_fuel (suc m) zero (suc a) b hm hn = absurd (omega arith)

  lowest_digit :
      (a b : ℕ)
      → bitwise empty join (suc a) b
        ≡ join (suc a % 2) (b % 2) + bitwise empty join (suc a / 2) (b / 2) * 2
  lowest_digit a b =
      omega (arith, more_fuel a (suc a / 2) (suc a / 2) (b / 2) (omega arith) (omega arith))

or_lowest : (a b : ℕ) → bit_or a b ≡ max (a % 2) (b % 2) + bit_or (a / 2) (b / 2) * 2
or_lowest zero b = simp bit_or-bitwise (omega arith)
or_lowest (suc a) b = simp bit_or-bitwise (lowest_digit (λ y. y) max a b)

and_lowest : (a b : ℕ) → bit_and a b ≡ min (a % 2) (b % 2) + bit_and (a / 2) (b / 2) * 2
and_lowest zero b = simp bit_and-bitwise (omega arith)
and_lowest (suc a) b = simp bit_and-bitwise (lowest_digit (λ y. 0) min a b)

xor_lowest : (a b : ℕ) → bit_xor a b ≡ differ (a % 2) (b % 2) + bit_xor (a / 2) (b / 2) * 2
xor_lowest zero b = simp bit_xor-bitwise (omega arith)
xor_lowest (suc a) b = simp bit_xor-bitwise (lowest_digit (λ y. y) differ a b)

and_none : (n a : ℕ) → a ≤ n → bit_and a 0 ≡ 0
and_none n zero h = simp bit_and-bitwise
and_none zero (suc a) h = absurd (omega arith)
and_none (suc n) (suc a) h =
    omega (arith, and_lowest (suc a) 0, and_none n (suc a / 2) (omega arith))

-- `v & 0xF` is the low half of the low byte.
pub low_nibble : (v : ℕ) → bit_and v 15 ≡ v % 16
low_nibble v = omega (
  arith,
  and_lowest v 15,
  and_lowest (v / 2) 7,
  and_lowest (v / 2 / 2) 3,
  and_lowest (v / 2 / 2 / 2) 1,
  and_none (v / 2 / 2 / 2 / 2) (v / 2 / 2 / 2 / 2) (omega arith),
)

-- `v & 0xFF` is the low byte.
pub low_byte : (v : ℕ) → bit_and v 0xFF ≡ v % 256
low_byte v = omega (
  arith,
  and_lowest v 255,
  and_lowest (v / 2) 127,
  and_lowest (v / 2 / 2) 63,
  and_lowest (v / 2 / 2 / 2) 31,
  low_nibble (v / 2 / 2 / 2 / 2),
)

twice_power : (y k : ℕ) → y * 2 ^ suc k ≡ y * 2 ^ k * 2
twice_power y k = omega (arith, ap (λ (t : ℕ). y * t) (pow-suc 2 k))

-- `x | (y << k)` is a sum where x has k bits.
pub or_field : (k x y : ℕ) → x < 2 ^ k → bit_or x (y * 2 ^ k) ≡ x + y * 2 ^ k
or_field zero zero y h = simp bit_or-bitwise (omega arith)
or_field zero (suc x) y h = absurd (omega arith)
or_field (suc k) x y h = ground (
  arith,
  twice_power y k,
  pow-suc 2 k,
  or_lowest x (y * 2 ^ suc k),
  or_field k (x / 2) y (omega (arith, pow-suc 2 k)),
)

differ-lt : (x y : ℕ) → x < 2 → y < 2 → differ x y < 2
differ-lt zero y hx hy = hy
differ-lt (suc x) zero hx hy = hx
differ-lt (suc x) (suc y) hx hy = differ-lt x y (omega arith) (omega arith)

-- `^` keeps the width.
pub bit_xor-lt : (k a b : ℕ) → a < 2 ^ k → b < 2 ^ k → bit_xor a b < 2 ^ k
bit_xor-lt zero zero zero ha hb = omega arith
bit_xor-lt zero zero (suc b) ha hb = absurd (omega arith)
bit_xor-lt zero (suc a) b ha hb = absurd (omega arith)
bit_xor-lt (suc k) a b ha hb =
    let lowest : differ (a % 2) (b % 2) < 2 =
      differ-lt (a % 2) (b % 2) (omega arith) (omega arith) in
    omega (
      arith,
      pow-suc 2 k,
      xor_lowest a b,
      bit_xor-lt k (a / 2) (b / 2) (omega (arith, pow-suc 2 k)) (omega (arith, pow-suc 2 k)),
    )
