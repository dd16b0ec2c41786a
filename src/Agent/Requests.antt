-- ===== src/Agent/Requests.antt =====
-- Agent::handle of src/agent.cpp and the replies to its requests.
use nano_sensor.Base.{
  ℕ, zero, suc, ◌*◌, ◌^◌, Bool, true, false, not, ◌||◌, Option, none, some, List, [], ◌∷◌, ltb, leb,
  ◌==◌, if◌then◌else◌,
}
use nano_sensor.Base.Int.{ℤ, pos, negsuc, neg}
use nano_sensor.Text.{Bytes, codes, bytes_eq, take_while, drop_while, is_digit}
use nano_sensor.Json.{
  JsonWriter, json_writer, begin_object, begin_object_key, end_object, field, field_bool, field_i64,
}
use nano_sensor.Spool.StateFile.{is_space, run_value}
use nano_sensor.Inventory.{agent_name, agent_version}
use nano_sensor.Cve.Names.{is_empty}
use nano_sensor.Agent.Locks.{is_deadlock}
use nano_sensor.Agent.Results.{
  fault_name, ScanResult, write_result, error_json, valid_cve_id, FindingRow, rows_json,
}
use nano_sensor.Agent.Scan.{AgentConfig, AgentState}

abbrev pub not_space : ℕ → Bool
not_space c = not (is_space c)

-- `in >> word`: the word, empty at the end, and what is left.
unfoldable pub extract_word : Bytes → Bytes × Bytes
extract_word text =
    let rest = drop_while is_space text in (take_while not_space rest, drop_while not_space rest)

-- A run of digits behind a sign as an int; none where there is no digit or the value is no int.
abbrev pub int_of : Bool → Bytes → Option (ℤ × Bytes)
int_of negative cs =
    let run = take_while is_digit cs in
    let left = drop_while is_digit cs in
    let value = run_value 0 run in
    if is_empty run
    then none
    else if negative
    then if ltb (2 ^ 31) value then none else some (neg (pos value), left)
    else if leb (2 ^ 31) value
    then none
    else some (pos value, left)

abbrev pub int_from : Bytes → Option (ℤ × Bytes)
int_from [] = none
int_from (c ∷ cs) =
    if c == b'-'
    then int_of true cs
    else if c == b'+'
    then int_of false cs
    else int_of false (c ∷ cs)

-- `in >> n` on an int; none where it fails.
unfoldable pub extract_int : Bytes → Option (ℤ × Bytes)
extract_int text = int_from (drop_while is_space text)

abbrev pub or_else : ℤ → Option (ℤ × Bytes) → ℤ
or_else default none = default
or_else default (some (n, rest)) = n

-- std::clamp(n, low, high) on an int, for bounds that are not negative.
unfoldable pub clamp : ℤ → ℕ → ℕ → ℕ
clamp (negsuc n) low high = low
clamp (pos n) low high = if ltb n low then low else if ltb high n then high else n

abbrev pub wait_cap : ℤ → ℕ
wait_cap (pos zero) = 60000
wait_cap (pos (suc n)) = suc n * 500
wait_cap (negsuc n) = 60000

-- The wait of handle_scan in milliseconds. The product is an int for a time-out of up to 4294967 s.
unfoldable pub scan_wait : AgentConfig → Bytes → ℕ
scan_wait cfg arguments =
    clamp (or_else (pos 30000) (extract_int arguments)) 0 (wait_cap cfg.hang_timeout_s)

-- The reply of handle_scan: the result that the waiter has when its wait ends, if any.
unfoldable pub scan_reply : Option ScanResult → Bytes
scan_reply none =
    let w = field_bool (codes "completed") false (begin_object (json_writer false)) in
    (end_object
      (field (codes "note") (codes "scan still running; it will finish in the background") w)).out
scan_reply (some r) =
    let w = field_bool (codes "completed") true (begin_object (json_writer false)) in
    (end_object (end_object (write_result r (begin_object_key (codes "scan") w)))).out

-- ProcInfo of include/ns/procinfo.hpp.
pub record ProcInfo : Type 0 where
  pub pid : ℕ
  pub user : Bytes
  pub elevated : Bool
  pub privileges_enabled : ℕ
  pub private_bytes : ℕ
  pub working_set : ℕ
  pub peak_working_set : ℕ
  pub handles : ℕ
  pub threads : ℕ

unfoldable pub write_process : ProcInfo → JsonWriter → JsonWriter
write_process p w =
    let w1 = field (codes "user") p.user (field_i64 (codes "pid") (pos p.pid) w) in
    let w2 = field_bool (codes "elevated") p.elevated w1 in
    let w3 = field_i64 (codes "privileges_enabled") (pos p.privileges_enabled) w2 in
    let w4 = field_i64 (codes "private_bytes") (pos p.private_bytes) w3 in
    let w5 = field_i64 (codes "working_set") (pos p.working_set) w4 in
    let w6 = field_i64 (codes "peak_working_set") (pos p.peak_working_set) w5 in
    let w7 = field_i64 (codes "handles") (pos p.handles) w6 in
    field_i64 (codes "threads") (pos p.threads) w7

-- What a status request meets: the process, the counters of the pipe and the dumps, the seconds
-- since the start, and whether the lock on the database is free.
pub record StatusHost : Type 0 where
  pub process : ProcInfo
  pub requests_served : ℕ
  pub dumps_written : ℕ
  pub uptime_s : ℤ
  pub db_free : Bool

-- With the planted fault the lock is waited for.
unfoldable pub db_state : AgentConfig → StatusHost → AgentState → Bytes
db_state cfg host m =
    let known = if m.db_connected then codes "connected" else codes "disconnected" in
    if is_deadlock cfg.fault || host.db_free then known else codes "busy"

unfoldable pub handle_status : AgentConfig → StatusHost → AgentState → Bytes
handle_status cfg host m =
    let w0 = field (codes "service") agent_name (begin_object (json_writer false)) in
    let w1 = field (codes "version") agent_version w0 in
    let w2 = field (codes "fault") (fault_name cfg.fault) w1 in
    let w3 = end_object (write_process host.process (begin_object_key (codes "process") w2)) in
    let w4 = field_i64 (codes "pipe_requests_served") (pos host.requests_served) w3 in
    let w5 = field_i64 (codes "dumps_written") (pos host.dumps_written) w4 in
    let w6 = field (codes "hostname") m.hostname (field_i64 (codes "uptime_s") host.uptime_s w5) in
    let w7 = field_i64 (codes "scans_completed") (pos m.scans) w6 in
    let w8 = end_object (write_result m.last (begin_object_key (codes "last_scan") w7)) in
    let w9 = begin_object_key (codes "database") w8 in
    let w10 = field_bool (codes "configured") (not (is_empty cfg.db_connection)) w9 in
    (end_object (end_object (field (codes "state") (db_state cfg host m) w10))).out

-- A query on the database: the rows, or its error.
pub data Rows : Type 0 where
  rows : List FindingRow → Rows
  failed : Bytes → Rows

abbrev pub reply_of : Rows → Bytes
reply_of (rows rs) = rows_json rs
reply_of (failed err) = error_json err

-- The queries, with a score as its text; `extract_double` is `in >> min_cvss`, none where it fails.
pub record Queries : Type 0 where
  pub host_findings : Bytes → Bytes → ℕ → Rows
  pub hosts_affected : Bytes → Rows
  pub extract_double : Bytes → Option (Bytes × Bytes)

unfoldable pub handle_findings : Queries → Bytes → ℤ → AgentState → Bytes
handle_findings db min_cvss limit m =
    if is_empty m.hostname
    then error_json (codes "no scan has completed yet")
    else if not m.db_connected
    then error_json (codes "database not connected")
    else reply_of (db.host_findings m.hostname min_cvss (clamp limit 1 1000))

unfoldable pub handle_affected : Queries → Bytes → AgentState → Bytes
handle_affected db cve m =
    if not (valid_cve_id cve)
    then error_json (codes "expected a CVE id like CVE-2024-6387")
    else if not m.db_connected
    then error_json (codes "database not connected")
    else reply_of (db.hosts_affected cve)

-- A stream whose extraction has failed fails again.
abbrev pub findings_arguments : Option (Bytes × Bytes) → Bytes × ℤ
findings_arguments none = (codes "0", pos 20)
findings_arguments (some (score, rest)) = (score, or_else (pos 20) (extract_int rest))

-- crashdump::write_now: the path of the dump, or an error.
pub data Dump : Type 0 where
  written : Bytes → Dump
  not_written : Bytes → Dump

abbrev pub dump_reply : Dump → Bytes
dump_reply (not_written err) = error_json err
dump_reply (written path) =
    (end_object (field (codes "dump") path (begin_object (json_writer false)))).out

-- What one request meets, and the result that its waiter has when a wait of some milliseconds ends.
pub record RequestHost : Type 0 where
  pub status : StatusHost
  pub db : Queries
  pub dump : Dump
  pub result_after : ℕ → Option ScanResult

unfoldable pub handle : AgentConfig → RequestHost → Bytes → AgentState → Bytes
handle cfg host request m =
    let (cmd, rest) = extract_word request in
    let (min_cvss, limit) = findings_arguments (host.db.extract_double rest) in
    if bytes_eq cmd (codes "ping")
    then codes "{\"pong\":true}"
    else if bytes_eq cmd (codes "status")
    then handle_status cfg host.status m
    else if bytes_eq cmd (codes "scan")
    then scan_reply (host.result_after (scan_wait cfg rest))
    else if bytes_eq cmd (codes "findings")
    then handle_findings host.db min_cvss limit m
    else if bytes_eq cmd (codes "affected")
    then handle_affected host.db (extract_word rest).0 m
    else if bytes_eq cmd (codes "dump")
    then dump_reply host.dump
    else error_json (codes "unknown command; expected ping|status|scan|findings|affected|dump")
