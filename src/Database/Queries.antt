-- ===== src/Database/Queries.antt =====
-- The queries of src/db_odbc.cpp. A wide text is a list of UTF-16 units, and its conversion to UTF-8
-- is an argument.
use nano_sensor.Base.{
  ℕ, Bool, true, false, not, Option, none, some, List, [], ◌∷◌, ◌++◌, ltb, ◌==◌, if◌then◌else◌,
  length, take,
}
use nano_sensor.Base.Int.{ℤ, pos}
use nano_sensor.Text.{Bytes, codes}
use nano_sensor.Cve.Names.{is_empty}
use nano_sensor.Agent.Results.{FindingRow}
use nano_sensor.Database.Session.{
  wstr, str, dbl, i64, select_host, select_cve, Return, success, no_data, failed, Link, Result, ok,
  err, Action, raise, ◌>>◌, Odbc, prepare, execute,
}

-- The characters of a text column, or NULL, or a call of SQLGetData that fails.
pub data Cell : Type 0 where
  unread null : Cell
  chars : List ℕ → Cell

-- A row in the layout of kRowColumns; a double is given by its text,
-- and the numbers are 0 where SQLGetData writes none.
pub record RawRow : Type 0 where
  pub hostname : Cell
  pub cve_id : Cell
  pub package_name : Cell
  pub package_version : Cell
  pub cvss : Bytes
  pub severity : Cell
  pub exposed : ℕ
  pub scan_id : ℤ

abbrev pub line_break : Bytes
line_break = 10 ∷ []

abbrev pub add_line : Bytes → Bytes → Bytes
add_line messages d = if is_empty d then messages else messages ++ (d ++ line_break)

-- What follows the rows: each round has what SQLMoreResults returns, and the diagnostic text.
unfoldable pub more_results : Bytes → List (Return × Bytes) → Bytes
more_results messages [] = messages
more_results messages ((success, d) ∷ rest) = more_results (add_line messages d) rest
more_results messages ((no_data, d) ∷ rest) = messages
more_results messages ((failed, d) ∷ rest) = messages

unfoldable pub drain_messages : Option Bytes → Bytes → List (Return × Bytes) → Option Bytes
drain_messages none d results = none
drain_messages (some messages) d results = some (more_results (add_line messages d) results)

module _ (narrow : List ℕ → Bytes) where
  -- The records of a handle. One with more than 1023 characters does not return SQL_SUCCESS.
  unfoldable pub diag_loop : Bytes → List (List ℕ) → Bytes
  diag_loop out [] = out
  diag_loop out (msg ∷ rest) = elim (ltb (length msg) 1024) [
    | true ↦ diag_loop ((if is_empty out then out else out ++ line_break) ++ narrow msg) rest
    | false ↦ out
  ]

  unfoldable pub diag : List (List ℕ) → Bytes
  diag records = diag_loop [] records

  -- The buffer has 1024 units, the last of them 0 where the text does not fit; the length is that of
  -- the whole text. none where units behind the buffer are read.
  unfoldable pub get_text : Cell → Option Bytes
  get_text unread = some []
  get_text null = some []
  get_text (chars []) = some []
  get_text (chars (c ∷ cs)) =
      let text = c ∷ cs in
      if ltb (length text) 1024
      then some (narrow text)
      else if length text == 1024
      then some (narrow (take 1023 text ++ (0 ∷ [])))
      else none

  abbrev pub row_with :
      RawRow
      → Option Bytes
      → Option Bytes
      → Option Bytes
      → Option Bytes
      → Option Bytes
      → Option FindingRow
  row_with r (some hostname) (some cve) (some name) (some version) (some severity) = some (record {
    hostname = hostname;
    cve_id = cve;
    package_name = name;
    package_version = version;
    cvss = r.cvss;
    severity = severity;
    exposed = not (r.exposed == 0);
    scan_id = r.scan_id;
  })
  row_with r a b c d e = none

  abbrev pub read_row : RawRow → Option FindingRow
  read_row r =
      row_with r (get_text r.hostname) (get_text r.cve_id) (get_text r.package_name)
        (get_text r.package_version) (get_text r.severity)

  -- The rows behind those in `out`.
  unfoldable pub read_rows : List RawRow → List FindingRow → Option (List FindingRow)
  read_rows [] out = some out
  read_rows (r ∷ rest) out = elim (read_row r) [
    | none ↦ none
    | some row ↦ read_rows rest (out ++ (row ∷ []))
  ]

  unfoldable pub column_loop : List Cell → List Bytes → Option (List Bytes)
  column_loop [] out = some out
  column_loop (c ∷ rest) out = elim (get_text c) [
    | none ↦ none
    | some text ↦ column_loop rest (out ++ (text ∷ []))
  ]

  -- What SQLExecDirect returns, with its diagnostic text, and the rows.
  unfoldable pub column : Bool → Return × Bytes → List Cell → Result (Option (List Bytes))
  column false reply cells = err (codes "not connected")
  column true (success, d) cells = ok (column_loop cells [])
  column true (no_data, d) cells = err d
  column true (failed, d) cells = err d

  module _ (odbc : Odbc) (rows : Link → List RawRow) where
    abbrev pub fetch_rows : Action (Option (List FindingRow))
    fetch_rows l = (ok (read_rows (rows l) []), l)

    unfoldable pub host_findings : Bool → Bytes → ℕ → ℤ → Action (Option (List FindingRow))
    host_findings false hostname min_cvss limit = raise (codes "not connected")
    host_findings true hostname min_cvss limit = do
      prepare odbc select_host
      execute odbc select_host (i64 limit ∷ wstr hostname 255 ∷ dbl min_cvss ∷ [])
      fetch_rows

    unfoldable pub hosts_affected : Bool → Bytes → Action (Option (List FindingRow))
    hosts_affected false cve = raise (codes "not connected")
    hosts_affected true cve = do
      prepare odbc select_cve
      execute odbc select_cve (str cve 32 ∷ [])
      fetch_rows

-- Of statements that are fixed: the messages, with what the rounds of SQLMoreResults bring.
unfoldable pub exec :
    Bool → Return × Bytes → Option Bytes → List (Return × Bytes) → Result (Option Bytes)
exec false reply messages results = err (codes "not connected")
exec true (success, d) messages results = ok (drain_messages messages d results)
exec true (no_data, d) messages results = ok (drain_messages messages d results)
exec true (failed, d) messages results = err d

-- The first column of the first row, 0 without one.
unfoldable pub scalar : Bool → Return × Bytes → Option ℤ → Result ℤ
scalar false reply first = err (codes "not connected")
scalar true (success, d) none = ok (pos 0)
scalar true (success, d) (some v) = ok v
scalar true (no_data, d) first = err d
scalar true (failed, d) first = err d
