-- ===== src/Log.antt =====
-- src/log.cpp and include/ns/log.hpp: levels, and one JSON object on a line for each event.
use nano_sensor.Base.{
  ℕ, zero, suc, ◌+◌, ◌/◌, ◌%◌, Bool, true, false, Option, none, some, List, [], ◌∷◌, ◌++◌, ltb,
  ◌==◌, if◌then◌else◌,
}
use nano_sensor.Text.{Bytes, codes, bytes_eq}
use nano_sensor.Json.{JsonWriter, json_writer, begin_object, end_object, field}
pub mod Line
mod Tests

pub data LogLevel : Type 0 where
  debug info warn error : LogLevel

abbrev pub rank : LogLevel → ℕ
rank debug = 0
rank info = 1
rank warn = 2
rank error = 3

unfoldable pub level_name : LogLevel → Bytes
level_name debug = codes "debug"
level_name info = codes "info"
level_name warn = codes "warn"
level_name error = codes "error"

-- The level that is set; none where the function returns false and sets nothing.
unfoldable pub log_set_level_by_name : Bytes → Option LogLevel
log_set_level_by_name name =
    if bytes_eq name (codes "debug")
    then some debug
    else if bytes_eq name (codes "info")
    then some info
    else if bytes_eq name (codes "warn")
    then some warn
    else if bytes_eq name (codes "error")
    then some error
    else none

-- The fields of the clock in UTC; gmtime has split the seconds.
pub record Utc : Type 0 where
  pub year : ℕ
  pub month : ℕ
  pub day : ℕ
  pub hour : ℕ
  pub minute : ℕ
  pub second : ℕ
  pub ms : ℕ

-- The lowest `width` digits of n in front of `acc`: the format %0*d for a number that has no more.
abbrev pub padded : ℕ → ℕ → Bytes → Bytes
padded zero n acc = acc
padded (suc width) n acc = padded width (n / 10) ((b'0' + n % 10) ∷ acc)

unfoldable pub utc_timestamp : Utc → Bytes
utc_timestamp t = padded 4 t.year (
    b'-'
    ∷ padded 2 t.month (
        b'-'
        ∷ padded 2 t.day (
            b'T'
            ∷ padded 2 t.hour (
                b':'
                ∷ padded 2 t.minute
                    (b':' ∷ padded 2 t.second (b'.' ∷ padded 3 t.ms (b'Z' ∷ [])))))))

abbrev pub write_fields : List (Bytes × Bytes) → JsonWriter → JsonWriter
write_fields [] w = w
write_fields ((key, value) ∷ fields) w = write_fields fields (field key value w)

-- What is written to stderr at a level `at` of the logger.
unfoldable pub log_event : LogLevel → Utc → LogLevel → Bytes → List (Bytes × Bytes) → Bytes
log_event at now lvl msg fields =
    let w = field (codes "msg") msg (
      field (codes "level") (level_name lvl)
        (field (codes "ts") (utc_timestamp now) (begin_object (json_writer false)))) in
    let line = (end_object (write_fields fields w)).out in
    if ltb (rank lvl) (rank at) then [] else line ++ (10 ∷ [])
