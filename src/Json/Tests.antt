-- ===== src/Json/Tests.antt =====
-- Runs of the JSON writer, and examples.
use nano_sensor.Base.{◌+◌, ◌≡◌, refl, true, false, some, [], ◌∷◌, ◌++◌, length}
use nano_sensor.Base.Int.{negsuc}
use nano_sensor.Text.{codes}
use nano_sensor.Json.{
  escape_byte, json_escape, json_writer, digits_of, newline_indent, separator, write_quoted,
  write_key, begin_object, begin_object_key, begin_array, end_object, end_array, field, field_bool,
  field_i64, value,
}
use nano_sensor.Json.Escape.{read_string, read_string-json_escape}
use nano_sensor.Json.Document.{
  Members, no_members, member, truth, integer, object, array, no_elements, text_element,
  object_element, write_members, write_value, write_elements, write_document, value_text,
}
use nano_sensor.Json.Writing.{write_document-value_text}

line_break_is_escaped : json_escape (codes "a\"b" ++ (10 ∷ 27 ∷ [])) ≡ codes "a\\\"b\\n\\u001b"
unfolding json_escape escape_byte
line_break_is_escaped = refl

abbrev report : Members
report = member (codes "host") (object (member (codes "up") (truth true) no_members)) (
    member (codes "n") (integer (negsuc 6)) (
      member (codes "names")
        (array (text_element (codes "a") (object_element no_members no_elements))) no_members))

report_is_written :
    write_document report (json_writer false)
    ≡ codes "{\"host\":{\"up\":true},\"n\":-7,\"names\":[\"a\",{}]}"
unfolding write_document write_members write_value write_elements json_escape escape_byte digits_of
    newline_indent separator write_quoted write_key begin_object begin_object_key begin_array
    end_object end_array field field_bool field_i64 value
report_is_written = refl

read_string-json_escape_example :
    read_string
      (length (json_escape (codes "a\"b")) + 1)
      (json_escape (codes "a\"b") ++ (34 ∷ codes "}"))
    ≡ some (codes "a\"b", codes "}")
read_string-json_escape_example = read_string-json_escape (codes "a\"b") (codes "}")

write_document-value_text_example :
    write_document report (json_writer true) ≡ value_text true 0 (object report)
write_document-value_text_example = write_document-value_text true report
