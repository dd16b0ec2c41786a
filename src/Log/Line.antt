-- ===== src/Log/Line.antt =====
-- The lines that log_event of src/log.cpp writes.
use nano_sensor.Base.{
  ℕ, zero, suc, ◌/◌, ◌≤◌, ◌≡◌, ◌⊎◌, inl, inr, Bool-cases, refl, false, List, [], ◌∷◌, ◌++◌, arith,
  ltb, ltb→lt, ◌<◌, All,
}
use nano_sensor.Text.{Bytes, codes}
use nano_sensor.Json.{
  json_escape, JsonWriter, json_writer, newline_indent, separator, count_element, write_quoted,
  write_key, begin_object, end_object, field,
}
use nano_sensor.Json.Escape.{All-two, json_escape-printable}
use nano_sensor.Log.{
  LogLevel, rank, level_name, Utc, padded, utc_timestamp, write_fields, log_event,
}

abbrev Printable : Bytes → Type 0
Printable bytes = All (λ (c : ℕ). 32 ≤ c) bytes

-- A writer in plain form whose text has no control character.
record IsPlain (w : JsonWriter) : Type 0 where
  plain : w.pretty ≡ false
  printable : Printable w.out

emit-IsPlain :
    (s : Bytes) (w : JsonWriter) → Printable s → IsPlain w → IsPlain (record w { out = w.out ++ s })
emit-IsPlain s w h p = record { plain = p.plain; printable = All-two w.out s p.printable h }

count-IsPlain : (ns : List ℕ) (w : JsonWriter) → IsPlain w → IsPlain (count_element ns w)
count-IsPlain [] w p = p
count-IsPlain (n ∷ ns) w p = record {
  plain = p.plain;
  printable = All-two w.out _ p.printable (ground arith);
}

separator-IsPlain : (w : JsonWriter) → IsPlain w → IsPlain (separator w)
unfolding separator newline_indent
separator-IsPlain w p =
    let q : IsPlain (count_element w.counts w) = count-IsPlain w.counts w p in rw q.plain q

quoted-IsPlain : (s : Bytes) (w : JsonWriter) → IsPlain w → IsPlain (write_quoted s w)
unfolding write_quoted
quoted-IsPlain s w p =
    emit-IsPlain (codes "\"") _ (omega arith, tt)
      (emit-IsPlain (json_escape s) _ (json_escape-printable s)
        (emit-IsPlain (codes "\"") w (omega arith, tt) p))

field-IsPlain : (key value : Bytes) (w : JsonWriter) → IsPlain w → IsPlain (field key value w)
unfolding field write_key
field-IsPlain key value w p =
    let k : IsPlain (write_quoted key (separator w)) =
      quoted-IsPlain key (separator w) (separator-IsPlain w p) in
    quoted-IsPlain value _ (emit-IsPlain _ _ (ground arith) k)

fields-IsPlain :
    (fields : List (Bytes × Bytes)) (w : JsonWriter) → IsPlain w → IsPlain (write_fields fields w)
fields-IsPlain [] w p = p
fields-IsPlain ((key, value) ∷ fields) w p =
    fields-IsPlain fields (field key value w) (field-IsPlain key value w p)

padded-Printable : (width n : ℕ) (acc : Bytes) → Printable acc → Printable (padded width n acc)
padded-Printable zero n acc h = h
padded-Printable (suc width) n acc h = padded-Printable width (n / 10) _ (omega arith, h)

end-IsPlain : (w : JsonWriter) → IsPlain w → IsPlain (end_object w)
unfolding end_object
end-IsPlain w p =
    rw p.plain (record { plain = refl; printable = All-two w.out _ p.printable (omega arith, tt) })

begin-IsPlain : IsPlain (begin_object (json_writer false))
unfolding begin_object separator newline_indent
begin-IsPlain = record { plain = refl; printable = (omega arith, tt) }

-- An event below the level of the logger writes nothing. Any other event writes one line: bytes that
-- are no control characters, whatever bytes the message and the fields have, and a line break at the
-- end.
pub log_event-line :
    (at : LogLevel) (now : Utc) (lvl : LogLevel) (msg : Bytes) (fields : List (Bytes × Bytes))
    → ((rank lvl < rank at) × (log_event at now lvl msg fields ≡ []))
      ⊎ ((rank at ≤ rank lvl)
          × (line : Bytes) × All (λ (c : ℕ). 32 ≤ c) line
          × (log_event at now lvl msg fields ≡ line ++ (10 ∷ [])))
unfolding log_event
log_event-line at now lvl msg fields =
    let w : JsonWriter = field (codes "msg") msg (
      field (codes "level") (level_name lvl)
        (field (codes "ts") (utc_timestamp now) (begin_object (json_writer false)))) in
    let p : IsPlain (end_object (write_fields fields w)) = end-IsPlain _ (
      fields-IsPlain fields w
        (field-IsPlain _ _ _ (field-IsPlain _ _ _ (field-IsPlain _ _ _ begin-IsPlain)))) in
    elim (Bool-cases (ltb (rank lvl) (rank at))) [
      | inl below ↦ inl (ltb→lt (rank lvl) (rank at) below, rw below refl)
      | inr heard ↦
          inr (ground arith, (end_object (write_fields fields w)).out, p.printable, rw heard refl)
    ]
