-- ===== src/Log/Tests.antt =====
-- Events of the logger.
use nano_sensor.Base.{ℕ, ◌≤◌, ◌<◌, ◌≡◌, refl, ◌⊎◌, [], ◌∷◌, ◌++◌, All}
use nano_sensor.Text.{Bytes, codes}
use nano_sensor.Json.{
  escape_byte, json_escape, newline_indent, separator, write_quoted, write_key, begin_object,
  end_object, field,
}
use nano_sensor.Log.{info, warn, rank, level_name, Utc, utc_timestamp, log_event}
use nano_sensor.Log.Line.{log_event-line}

abbrev midnight : Utc
midnight = record { year = 2025; month = 1; day = 2; hour = 0; minute = 0; second = 5; ms = 42 }

timestamp_has_its_digits : utc_timestamp midnight ≡ codes "2025-01-02T00:00:05.042Z"
unfolding utc_timestamp
timestamp_has_its_digits = refl

event_is_an_object :
    log_event info midnight warn (codes "a") ((codes "k", codes "v\"") ∷ [])
    ≡ codes
        "{\"ts\":\"2025-01-02T00:00:05.042Z\",\"level\":\"warn\",\"msg\":\"a\",\"k\":\"v\\\"\"}\n"
unfolding log_event level_name utc_timestamp begin_object end_object field separator newline_indent
    write_quoted write_key json_escape escape_byte
event_is_an_object = refl

log_event-line_example :
    ((rank warn < rank info)
      × (log_event info midnight warn (codes "a\nb") ((codes "k", codes "\n") ∷ []) ≡ []))
    ⊎ ((rank info ≤ rank warn)
        × (line : Bytes) × All (λ (c : ℕ). 32 ≤ c) line
        × (log_event info midnight warn (codes "a\nb") ((codes "k", codes "\n") ∷ [])
            ≡ line ++ (10 ∷ [])))
log_event-line_example =
    log_event-line info midnight warn (codes "a\nb") ((codes "k", codes "\n") ∷ [])
