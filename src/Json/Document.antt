-- ===== src/Json/Document.antt =====
-- A whole document written by the calls of src/json.cpp, against its text written out directly.
use nano_sensor.Base.{ℕ, suc, ◌*◌, Bool, [], ◌∷◌, ◌++◌, ltb, if◌then◌else◌, replicate}
use nano_sensor.Base.Int.{ℤ}
use nano_sensor.Text.{Bytes, codes}
use nano_sensor.Json.{
  json_escape, JsonWriter, begin_object, begin_object_key, begin_array, end_object, end_array,
  field, field_bool, field_double, print_i64, field_i64, field_null, value,
}

-- The documents that the calls can build: a member is a key with a value, an element of an array is
-- a string or an object. A number with a fraction is its formatted text.
mutual
  pub data Members : Type 0 where
    no_members : Members
    member : Bytes → Value → Members → Members

  pub data Value : Type 0 where
    text : Bytes → Value
    truth : Bool → Value
    decimal : Bytes → Value
    integer : ℤ → Value
    null : Value
    object : Members → Value
    array : Elements → Value

  pub data Elements : Type 0 where
    no_elements : Elements
    text_element : Bytes → Elements → Elements
    object_element : Members → Elements → Elements

-- The calls that write a document.
unfoldable mutual
  pub write_members : Members → JsonWriter → JsonWriter
  write_members no_members w = w
  write_members (member key v ms) w = write_members ms (write_value key v w)

  pub write_value : Bytes → Value → JsonWriter → JsonWriter
  write_value key (text s) w = field key s w
  write_value key (truth b) w = field_bool key b w
  write_value key (decimal s) w = field_double key s w
  write_value key (integer n) w = field_i64 key n w
  write_value key null w = field_null key w
  write_value key (object ms) w = end_object (write_members ms (begin_object_key key w))
  write_value key (array es) w = end_array (write_elements es (begin_array key w))

  pub write_elements : Elements → JsonWriter → JsonWriter
  write_elements no_elements w = w
  write_elements (text_element s es) w = write_elements es (value s w)
  write_elements (object_element ms es) w =
      write_elements es (end_object (write_members ms (begin_object w)))

unfoldable pub write_document : Members → JsonWriter → Bytes
write_document ms w = (end_object (write_members ms (begin_object w))).out

-- How many members or elements there are.
abbrev pub count_members : Members → ℕ
count_members no_members = 0
count_members (member key v ms) = suc (count_members ms)

abbrev pub count_elements : Elements → ℕ
count_elements no_elements = 0
count_elements (text_element s es) = suc (count_elements es)
count_elements (object_element ms es) = suc (count_elements es)

-- A new line inside `depth` containers.
abbrev pub line : Bool → ℕ → Bytes
line pretty depth = if pretty then 10 ∷ replicate (depth * 2) b' ' else []

-- What stands before element n of a container inside `depth` containers.
abbrev pub lead : Bool → ℕ → ℕ → Bytes
lead pretty depth n = (if ltb 0 n then codes "," else []) ++ line pretty depth

-- What stands before the closing bracket of n elements.
abbrev pub trail : Bool → ℕ → ℕ → Bytes
trail pretty depth n = if ltb 0 n then line pretty depth else []

abbrev pub quoted : Bytes → Bytes
quoted s = codes "\"" ++ (json_escape s ++ codes "\"")

abbrev pub keyed : Bool → Bytes → Bytes
keyed pretty key = quoted key ++ (if pretty then codes ": " else codes ":")

-- A container of n elements with the text `body`, inside `depth` containers.
abbrev pub bracketed : Bool → ℕ → Bytes → Bytes → ℕ → Bytes → Bytes
bracketed pretty depth left right n body = left ++ (body ++ (trail pretty depth n ++ right))

-- The text of a document, from the number of containers and of elements around each part.
unfoldable mutual
  pub members_text : Bool → ℕ → ℕ → Members → Bytes
  members_text pretty depth n no_members = []
  members_text pretty depth n (member key v ms) =
      (lead pretty depth n ++ (keyed pretty key ++ value_text pretty depth v))
      ++ members_text pretty depth (suc n) ms

  pub value_text : Bool → ℕ → Value → Bytes
  value_text pretty depth (text s) = quoted s
  value_text pretty depth (truth b) = if b then codes "true" else codes "false"
  value_text pretty depth (decimal s) = s
  value_text pretty depth (integer n) = print_i64 n
  value_text pretty depth null = codes "null"
  value_text pretty depth (object ms) =
      bracketed pretty depth (codes "{") (codes "}") (count_members ms)
        (members_text pretty (suc depth) 0 ms)
  value_text pretty depth (array es) =
      bracketed pretty depth (codes "[") (codes "]") (count_elements es)
        (elements_text pretty (suc depth) 0 es)

  pub elements_text : Bool → ℕ → ℕ → Elements → Bytes
  elements_text pretty depth n no_elements = []
  elements_text pretty depth n (text_element s es) =
      (lead pretty depth n ++ quoted s) ++ elements_text pretty depth (suc n) es
  elements_text pretty depth n (object_element ms es) =
      (lead pretty depth n
        ++ bracketed pretty depth (codes "{") (codes "}") (count_members ms)
            (members_text pretty (suc depth) 0 ms))
      ++ elements_text pretty depth (suc n) es
