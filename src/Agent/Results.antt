-- ===== src/Agent/Results.antt =====
-- Faults, scan results and the JSON of the replies of src/agent.cpp.
use nano_sensor.Base.{
  ℕ, Bool, false, not, ◌||◌, Option, none, some, List, [], ◌∷◌, ltb, ◌==◌, if◌then◌else◌, length,
  drop,
}
use nano_sensor.Base.Int.{ℤ, pos}
use nano_sensor.Text.{Bytes, codes, bytes_eq, starts_with, all, is_digit}
use nano_sensor.Json.{
  JsonWriter, json_writer, begin_object, begin_array, end_object, end_array, field, field_bool,
  field_double, field_i64,
}
use nano_sensor.Inventory.{each}
use nano_sensor.Cve.Names.{is_empty}
use nano_sensor.Cve.Match.{Finding}
use nano_sensor.Agent.Locks.{Fault, no_fault, use_after_free, deadlock, worker_crash}

-- The fault that is stored; none where the function returns false.
unfoldable pub parse_fault : Bytes → Option Fault
parse_fault name =
    if bytes_eq name (codes "none")
    then some no_fault
    else if bytes_eq name (codes "uaf")
    then some use_after_free
    else if bytes_eq name (codes "deadlock")
    then some deadlock
    else if bytes_eq name (codes "worker-crash")
    then some worker_crash
    else none

unfoldable pub fault_name : Fault → Bytes
fault_name no_fault = codes "none"
fault_name use_after_free = codes "uaf"
fault_name deadlock = codes "deadlock"
fault_name worker_crash = codes "worker-crash"

pub record ScanResult : Type 0 where
  pub ok : Bool
  pub scan_id : ℤ
  pub packages : ℕ
  pub findings : ℕ
  pub critical : ℕ
  pub duration_ms : ℤ
  pub finished_unix_ms : ℤ
  pub worst : Bytes
  pub db_error : Bytes

abbrev pub new_result : ScanResult
new_result = record {
  ok = false;
  scan_id = pos 0;
  packages = 0;
  findings = 0;
  critical = 0;
  duration_ms = pos 0;
  finished_unix_ms = pos 0;
  worst = [];
  db_error = [];
}

-- std::max_element by the score, from the first element on: the first of the largest.
unfoldable pub max_element : Finding → List Finding → Finding
max_element best [] = best
max_element best (f ∷ fs) = max_element (if ltb best.cvss_score f.cvss_score then f else best) fs

-- The id of the worst finding; none is the exception that the planted fault throws: `at(size())`.
unfoldable pub worst_finding : List Finding → Fault → Option Bytes
worst_finding findings worker_crash = none
worst_finding [] no_fault = some (codes "none")
worst_finding [] use_after_free = some (codes "none")
worst_finding [] deadlock = some (codes "none")
worst_finding (f ∷ fs) no_fault = some (max_element f fs).cve_id
worst_finding (f ∷ fs) use_after_free = some (max_element f fs).cve_id
worst_finding (f ∷ fs) deadlock = some (max_element f fs).cve_id

unfoldable pub write_result : ScanResult → JsonWriter → JsonWriter
write_result r w =
    let w1 = field_i64 (codes "scan_id") r.scan_id (field_bool (codes "ok") r.ok w) in
    let w2 = field_i64 (codes "packages") (pos r.packages) w1 in
    let w3 = field_i64 (codes "findings") (pos r.findings) w2 in
    let w4 = field_i64 (codes "critical") (pos r.critical) w3 in
    let w5 = field (codes "worst") r.worst w4 in
    let w6 = field_i64 (codes "duration_ms") r.duration_ms w5 in
    let w7 = field_i64 (codes "finished_unix_ms") r.finished_unix_ms w6 in
    if is_empty r.db_error then w7 else field (codes "db_error") r.db_error w7

unfoldable pub error_json : Bytes → Bytes
error_json msg = (end_object (field (codes "error") msg (begin_object (json_writer false)))).out

abbrev pub is_digit_or_dash : ℕ → Bool
is_digit_or_dash c = is_digit c || (c == b'-')

unfoldable pub valid_cve_id : Bytes → Bool
valid_cve_id s =
    if (ltb (length s) 9 || ltb 32 (length s)) || not (starts_with (codes "CVE-") s)
    then false
    else all is_digit_or_dash (drop 4 s)

-- A row of the database; the score is its text in the format %.1f.
pub record FindingRow : Type 0 where
  pub hostname : Bytes
  pub cve_id : Bytes
  pub package_name : Bytes
  pub package_version : Bytes
  pub cvss : Bytes
  pub severity : Bytes
  pub exposed : Bool
  pub scan_id : ℤ

unfoldable pub write_row : FindingRow → JsonWriter → JsonWriter
write_row r w =
    let w1 = field (codes "cve") r.cve_id (field (codes "host") r.hostname (begin_object w)) in
    let w2 =
      field (codes "version") r.package_version (field (codes "package") r.package_name w1) in
    let w3 = field (codes "severity") r.severity (field_double (codes "cvss") r.cvss w2) in
    end_object (field_i64 (codes "scan_id") r.scan_id (field_bool (codes "exposed") r.exposed w3))

unfoldable pub rows_json : List FindingRow → Bytes
rows_json rows =
    let w = field_i64 (codes "count") (pos (length rows)) (begin_object (json_writer false)) in
    (end_object (end_array (each write_row rows (begin_array (codes "rows") w)))).out
