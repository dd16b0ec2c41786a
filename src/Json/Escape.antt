-- ===== src/Json/Escape.antt =====
-- json_escape of src/json.cpp, and a reader of JSON strings.
use nano_sensor.Base.{
  ℕ, zero, suc, ◌+◌, ◌-◌, ◌*◌, ◌/◌, ◌^◌, ◌≤◌, ◌<◌, ◌≡◌, refl, Bool, ◌&&◌, ◌||◌, Option, none, some,
  [], ◌∷◌, ◌++◌, ltb, leb, ◌==◌, if◌then◌else◌, length, arith, All, length-append,
}
use mathlib.Core.List.{append_assoc}
use Prim.Native.Nat.{bit_and}
use nano_sensor.Base.Bits.{low_nibble}
use nano_sensor.Text.{Bytes}
use nano_sensor.Json.{hex_digit, escape_byte, json_escape}

-- One step of a reader of JSON strings, after RFC 8259: the closing quote, a character, or an
-- error. It reads of the escapes \u those of one byte.
pub data Step : Type 0 where
  closed : Bytes → Step
  char : ℕ → Bytes → Step
  bad : Step

abbrev hex_value : ℕ → ℕ
hex_value c = if leb b'a' c then c - b'a' + 10 else c - b'0'

abbrev is_hex : ℕ → Bool
is_hex c = (leb b'0' c && leb c b'9') || (leb b'a' c && leb c b'f')

abbrev read_hex : Bytes → Step
read_hex (z ∷ y ∷ a ∷ b ∷ rest) =
    if ((z == b'0') && (y == b'0')) && (is_hex a && is_hex b)
    then char (hex_value a * 16 + hex_value b) rest
    else bad
read_hex s = bad

abbrev read_escaped : Bytes → Step
read_escaped [] = bad
read_escaped (c ∷ rest) =
    if (c == 34) || ((c == 92) || (c == b'/'))
    then char c rest
    else if c == b'b'
    then char 8 rest
    else if c == b'f'
    then char 12 rest
    else if c == b'n'
    then char 10 rest
    else if c == b'r'
    then char 13 rest
    else if c == b't'
    then char 9 rest
    else if c == b'u'
    then read_hex rest
    else bad

unfoldable pub read_char : Bytes → Step
read_char [] = bad
read_char (c ∷ rest) =
    if c == 34
    then closed rest
    else if c == 92
    then read_escaped rest
    else if ltb c 0x20
    then bad
    else char c rest

-- The string up to the closing quote, and what follows the quote.
unfoldable pub read_string : ℕ → Bytes → Option (Bytes × Bytes)
read_string zero s = none
read_string (suc fuel) s = elim (read_char s) [
  | closed rest ↦ some ([], rest)
  | char c rest ↦ elim (read_string fuel rest) [
    | none ↦ none
    | some (cs, left) ↦ some (c ∷ cs, left)
  ]
  | bad ↦ none
]

read_control :
    (c : ℕ) (rest : Bytes)
    → c < 32
    → read_hex
        (b'0' ∷ b'0' ∷ hex_digit (bit_and (c / 2 ^ 4) 0xF) ∷ hex_digit (bit_and c 0xF) ∷ rest)
      ≡ char c rest
read_control c rest h = rw (low_nibble (c / 2 ^ 4), low_nibble c) (ground arith)

read_char-escape_byte : (c : ℕ) (rest : Bytes) → read_char (escape_byte c ++ rest) ≡ char c rest
unfolding read_char escape_byte
read_char-escape_byte c rest = ground (arith, read_control c rest)

length-escape_byte : (c : ℕ) → 1 ≤ length (escape_byte c)
unfolding escape_byte
length-escape_byte c = ground arith

read_back :
    (fuel : ℕ) (s rest : Bytes)
    → length (json_escape s) < fuel
    → read_string fuel (json_escape s ++ (34 ∷ rest)) ≡ some (s, rest)
unfolding json_escape read_string
read_back zero s rest h = absurd (omega arith)
read_back (suc fuel) [] rest h = unfold read_string read_char in refl
read_back (suc fuel) (c ∷ s) rest h =
    let shorter : length (json_escape s) < fuel =
      omega (arith, h, length-append (escape_byte c) (json_escape s), length-escape_byte c) in
    rw append_assoc (
      rw (read_string, read_char-escape_byte c (json_escape s ++ (34 ∷ rest)))
        (rw (read_back fuel s rest shorter)))

-- Behind an opening quote, a reader of JSON strings takes from the escaped string and the closing
-- quote exactly the string that was escaped, whatever bytes it holds, and stops behind the quote.
pub read_string-json_escape :
    (s rest : Bytes)
    → read_string (length (json_escape s) + 1) (json_escape s ++ (34 ∷ rest)) ≡ some (s, rest)
read_string-json_escape s rest = read_back (length (json_escape s) + 1) s rest (omega arith)

pub All-two :
    (p q : Bytes)
    → All (λ (c : ℕ). 32 ≤ c) p
    → All (λ (c : ℕ). 32 ≤ c) q
    → All (λ (c : ℕ). 32 ≤ c) (p ++ q)
All-two [] q h k = k
All-two (c ∷ p) q (hc, h) k = (hc, All-two p q h k)

printable_byte : (c : ℕ) → All (λ (x : ℕ). 32 ≤ x) (escape_byte c)
unfolding escape_byte
printable_byte c = ground arith

-- An escaped string holds no control character, so no line break.
pub json_escape-printable : (s : Bytes) → All (λ c. 32 ≤ c) (json_escape s)
unfolding json_escape
json_escape-printable [] = tt
json_escape-printable (c ∷ s) =
    All-two (escape_byte c) (json_escape s) (printable_byte c) (json_escape-printable s)
