-- ===== src/Json.antt =====
-- src/json.cpp and include/ns/json.hpp: the JSON writer.
use nano_sensor.Base.{
  ℕ, zero, suc, ◌+◌, ◌-◌, ◌*◌, ◌/◌, ◌%◌, ◌^◌, Bool, true, false, not, ◌&&◌, ◌||◌, List, [], ◌∷◌,
  ◌++◌, ltb, ◌==◌, if◌then◌else◌, length, replicate,
}
use Prim.Native.Nat.{bit_and}
use nano_sensor.Base.Int.{ℤ, pos, negsuc}
use nano_sensor.Text.{Bytes, codes}
pub mod Escape
pub mod Document
pub mod Writing
mod Tests

-- kHex[n] for n below 16.
abbrev pub hex_digit : ℕ → ℕ
hex_digit n = if ltb n 10 then b'0' + n else b'a' + (n - 10)

-- The text that one byte is escaped to.
unfoldable pub escape_byte : ℕ → Bytes
escape_byte c =
    if c == 34
    then codes "\\\""
    else if c == 92
    then codes "\\\\"
    else if c == 8
    then codes "\\b"
    else if c == 12
    then codes "\\f"
    else if c == 10
    then codes "\\n"
    else if c == 13
    then codes "\\r"
    else if c == 9
    then codes "\\t"
    else if ltb c 0x20
    then codes "\\u00" ++ (hex_digit (bit_and (c / 2 ^ 4) 0xF) ∷ hex_digit (bit_and c 0xF) ∷ [])
    else c ∷ []

unfoldable pub json_escape : Bytes → Bytes
json_escape [] = []
json_escape (c ∷ s) = escape_byte c ++ json_escape s

-- The members of the class: the innermost container stands first in `counts`.
pub record JsonWriter : Type 0 where
  pub out : Bytes
  pub counts : List ℕ
  pub pretty : Bool

abbrev pub json_writer : Bool → JsonWriter
json_writer pretty = record { out = []; counts = []; pretty = pretty }

-- out_ += s
abbrev pub emit : Bytes → JsonWriter → JsonWriter
emit s w = record w { out = w.out ++ s }

abbrev pub is_root : List ℕ → Bool
is_root [] = true
is_root (n ∷ ns) = false

abbrev pub indent : List ℕ → Bytes
indent counts = 10 ∷ replicate (length counts * 2) b' '

unfoldable pub newline_indent : JsonWriter → JsonWriter
newline_indent w = if not w.pretty || is_root w.counts then w else emit (indent w.counts) w

-- The comma before an element that is not the first of its container, which it counts.
abbrev pub count_element : List ℕ → JsonWriter → JsonWriter
count_element [] w = w
count_element (n ∷ ns) w = record w {
  out = w.out ++ (if ltb 0 n then codes "," else []);
  counts = (n + 1) ∷ ns;
}

unfoldable pub separator : JsonWriter → JsonWriter
separator w = newline_indent (count_element w.counts w)

unfoldable pub write_quoted : Bytes → JsonWriter → JsonWriter
write_quoted s w = emit (codes "\"") (emit (json_escape s) (emit (codes "\"") w))

unfoldable pub write_key : Bytes → JsonWriter → JsonWriter
write_key key w = emit (if w.pretty then codes ": " else codes ":") (write_quoted key w)

-- An opening bracket, and the container that it opens.
abbrev pub push : Bytes → JsonWriter → JsonWriter
push bracket w = record w { out = w.out ++ bracket; counts = 0 ∷ w.counts }

unfoldable pub begin_object : JsonWriter → JsonWriter
begin_object w = push (codes "{") (separator w)

unfoldable pub begin_object_key : Bytes → JsonWriter → JsonWriter
begin_object_key key w = push (codes "{") (write_key key (separator w))

unfoldable pub begin_array : Bytes → JsonWriter → JsonWriter
begin_array key w = push (codes "[") (write_key key (separator w))

abbrev pub back : List ℕ → ℕ
back [] = 0
back (n ∷ ns) = n

abbrev pub pop_back : List ℕ → List ℕ
pop_back [] = []
pop_back (n ∷ ns) = ns

-- end_object and end_array are the same but for the bracket.
abbrev pub close_with : Bytes → JsonWriter → JsonWriter
close_with bracket w =
    let n = back w.counts in
    let w' : JsonWriter = record w { counts = pop_back w.counts } in
    emit bracket (if w.pretty && ltb 0 n then emit (indent w'.counts) w' else w')

unfoldable pub end_object : JsonWriter → JsonWriter
end_object w = close_with (codes "}") w

unfoldable pub end_array : JsonWriter → JsonWriter
end_array w = close_with (codes "]") w

unfoldable pub field : Bytes → Bytes → JsonWriter → JsonWriter
field key value w = write_quoted value (write_key key (separator w))

unfoldable pub field_bool : Bytes → Bool → JsonWriter → JsonWriter
field_bool key value w =
    emit (if value then codes "true" else codes "false") (write_key key (separator w))

-- field on a double, with its text in the format %.1f.
unfoldable pub field_double : Bytes → Bytes → JsonWriter → JsonWriter
field_double key formatted w = emit formatted (write_key key (separator w))

-- The digits of n in front of `acc`; 20 are enough for 64 bits.
unfoldable pub digits_of : ℕ → ℕ → Bytes → Bytes
digits_of zero n acc = acc
digits_of (suc fuel) n acc =
    let acc' : Bytes = (b'0' + n % 10) ∷ acc in
    let more = digits_of fuel (n / 10) acc' in if n / 10 == 0 then acc' else more

-- The format %lld.
abbrev pub print_i64 : ℤ → Bytes
print_i64 (pos n) = digits_of 20 n []
print_i64 (negsuc n) = b'-' ∷ digits_of 20 (n + 1) []

unfoldable pub field_i64 : Bytes → ℤ → JsonWriter → JsonWriter
field_i64 key value w = emit (print_i64 value) (write_key key (separator w))

unfoldable pub field_null : Bytes → JsonWriter → JsonWriter
field_null key w = emit (codes "null") (write_key key (separator w))

unfoldable pub value : Bytes → JsonWriter → JsonWriter
value v w = write_quoted v (separator w)
