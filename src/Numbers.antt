-- ===== src/Numbers.antt =====
-- The conversions of strings to numbers that the sources call.
use nano_sensor.Base.{
  ℕ, ◌+◌, ◌-◌, ◌*◌, ◌^◌, ◌%◌, Bool, true, false, not, ◌&&◌, ◌||◌, [], ◌∷◌, ltb, leb, ◌==◌,
  if◌then◌else◌,
}
use nano_sensor.Base.Int.{ℤ, pos, neg}
use nano_sensor.Text.{Bytes, take_while, drop_while, is_digit}
use nano_sensor.Spool.StateFile.{is_space, run_value}

abbrev pub atoi_sign : Bytes → ℤ
atoi_sign [] = pos 0
atoi_sign (c ∷ cs) =
    if c == b'-'
    then neg (pos (run_value 0 (take_while is_digit cs)))
    else if c == b'+'
    then pos (run_value 0 (take_while is_digit cs))
    else pos (run_value 0 (take_while is_digit (c ∷ cs)))

-- std::atoi and std::strtoll in base 10: white space, a sign, digits; 0 without digits. A value out
-- of range is not reduced.
unfoldable pub atoi : Bytes → ℤ
atoi text = atoi_sign (drop_while is_space text)

abbrev pub is_hex : ℕ → Bool
is_hex c = is_digit c || ((leb b'a' c && leb c b'f') || (leb b'A' c && leb c b'F'))

abbrev pub hex_value : ℕ → ℕ
hex_value c = if leb b'a' c then c - b'a' + 10 else if leb b'A' c then c - b'A' + 10 else c - b'0'

abbrev pub hex_run : ℕ → Bytes → ℕ
hex_run acc [] = acc
hex_run acc (d ∷ ds) = hex_run (acc * 16 + hex_value d) ds

-- The digits, behind a prefix 0x that a digit follows.
abbrev pub hex_digits : Bytes → Bytes
hex_digits (z ∷ x ∷ d ∷ cs) =
    if (z == b'0') && (((x == b'x') || (x == b'X')) && is_hex d)
    then take_while is_hex (d ∷ cs)
    else take_while is_hex (z ∷ x ∷ d ∷ cs)
hex_digits cs = take_while is_hex cs

-- A value that is too large becomes the largest; a minus sign negates modulo 2 ^ 64.
abbrev pub signed_hex : Bool → Bytes → ℕ
signed_hex negative cs =
    let value = hex_run 0 (hex_digits cs) in
    if not (ltb value (2 ^ 64))
    then 2 ^ 64 - 1
    else if negative
    then (2 ^ 64 - value) % 2 ^ 64
    else value

abbrev pub hex_sign : Bytes → ℕ
hex_sign [] = 0
hex_sign (c ∷ cs) =
    if c == b'-'
    then signed_hex true cs
    else if c == b'+'
    then signed_hex false cs
    else signed_hex false (c ∷ cs)

-- std::strtoul in base 16.
unfoldable pub strtoul_16 : Bytes → ℕ
strtoul_16 text = hex_sign (drop_while is_space text)
