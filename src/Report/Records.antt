-- ===== src/Report/Records.antt =====
-- The texts that src/main.cpp reads and writes: records, pins, package lists and quoted arguments.
use nano_sensor.Base.{
  ℕ, zero, suc, ◌/◌, ◌%◌, Bool, false, not, ◌&&◌, ◌||◌, List, [], ◌∷◌, ◌++◌, ◌==◌, if◌then◌else◌,
  drop,
}
use nano_sensor.Base.Int.{ℤ, pos}
use nano_sensor.Text.{Bytes, codes, take_while, drop_while}
use nano_sensor.Json.{
  hex_digit, json_escape, json_writer, begin_object, end_object, print_i64, field_i64,
}
use nano_sensor.Cve.Names.{is_empty, split_from}
use nano_sensor.Cve.Index.{is_comment}
use nano_sensor.Inventory.{Package, Inventory}

-- The loop of pop_back on line ends.
abbrev pub strip_line_end : Bytes → Bytes
strip_line_end [] = []
strip_line_end (c ∷ cs) =
    let rest = strip_line_end cs in
    if ((c == 13) || (c == 10)) && is_empty rest then [] else c ∷ rest

abbrev pub not_byte : ℕ → ℕ → Bool
not_byte c x = not (x == c)

-- The content of the file, empty if it does not open.
unfoldable pub read_first_line : Bytes → Bytes
read_first_line text = strip_line_end (take_while (not_byte 10) text)

unfoldable pub make_record : Bytes → Bytes → Bytes → Bytes
make_record id type payload_json =
    codes "{\"id\":\""
    ++ (json_escape id
        ++ (codes "\",\"type\":\""
            ++ (json_escape type ++ (codes "\",\"payload\":" ++ (payload_json ++ codes "}")))))

-- The package of a line: what stands before the first tab, and before the second.
abbrev pub package_of_line : Bytes → Package
package_of_line line =
    let left = drop 1 (drop_while (not_byte 9) line) in
    record {
      name = take_while (not_byte 9) line;
      version = take_while (not_byte 9) left;
      vendor = [];
      source = codes "package-list";
    }

unfoldable pub package_lines : List Bytes → List Package
package_lines [] = []
package_lines (line ∷ lines) =
    let rest = package_lines lines in
    let p = package_of_line line in
    if is_comment line then rest else if is_empty p.name then rest else p ∷ rest

-- load_package_list on a file that opens.
unfoldable pub load_package_list : Bytes → Inventory → Inventory
load_package_list text inv = record inv {
  packages = inv.packages ++ package_lines (split_from 10 [] text);
}

-- One of " \t\"".
abbrev pub wants_quotes : ℕ → Bool
wants_quotes c = (c == b' ') || ((c == 9) || (c == 34))

abbrev pub any : (ℕ → Bool) → Bytes → Bool
any p [] = false
any p (c ∷ cs) = p c || any p cs

abbrev pub escape_quotes : Bytes → Bytes
escape_quotes [] = []
escape_quotes (c ∷ cs) = let rest = escape_quotes cs in if c == 34 then 92 ∷ c ∷ rest else c ∷ rest

unfoldable pub quote_arg : Bytes → Bytes
quote_arg s =
    if not (is_empty s) && not (any wants_quotes s)
    then s
    else codes "\"" ++ (escape_quotes s ++ codes "\"")

-- The format %08x of a 32-bit word, in front of `acc`.
abbrev pub hex_padded : ℕ → ℕ → Bytes → Bytes
hex_padded zero n acc = acc
hex_padded (suc width) n acc = hex_padded width (n / 16) (hex_digit (n % 16) ∷ acc)

-- Two draws of the random device.
unfoldable pub run_tag_of : ℕ → ℕ → Bytes
run_tag_of high low = hex_padded 8 high (hex_padded 8 low [])

unfoldable pub synthetic_record : Bytes → ℤ → ℕ → Bytes
synthetic_record run_tag now i =
    let id =
      codes "synthetic-"
      ++ (run_tag ++ (codes "-" ++ (print_i64 now ++ (codes "-" ++ print_i64 (pos i))))) in
    let w = end_object (
      field_i64 (codes "ts") now
        (field_i64 (codes "n") (pos i) (begin_object (json_writer false)))) in
    make_record id (codes "synthetic") w.out

unfoldable pub inventory_id : Bytes → Bytes → ℤ → Bytes
inventory_id hostname run_tag now =
    hostname ++ (codes "-" ++ (run_tag ++ (codes "-" ++ (print_i64 now ++ codes "-inventory"))))
