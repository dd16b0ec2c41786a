-- ===== src/Agent/Tests.antt =====
-- Runs of the agent, and examples.
use nano_sensor.Base.{◌≤◌, ◌≡◌, refl, ◌⊎◌, true, false, none, some, List, [], ◌∷◌, ◌++◌, arith, All}
use nano_sensor.Base.Int.{pos}
use nano_sensor.Text.{codes}
use nano_sensor.Inventory.{Inventory}
use nano_sensor.Report.Commands.{new_index}
use nano_sensor.Agent.Locks.{
  no_fault, use_after_free, wake_mu, unlock, Request, request_threads, status, scan, thread, Thread,
  locks, here, Step, Reach, start, next, run_scan_locks, worker_locks, handle_locks, agent_threads,
}
use nano_sensor.Agent.Progress.{IsFinished, calls_left, agent_progress}
use nano_sensor.Agent.Results.{new_result, valid_cve_id, worst_finding}
use nano_sensor.Agent.Scan.{
  AgentConfig, AgentState, ScanHost, finish_scan, scan_result, run_scan, register, request_scan,
  time_out, deliver_result, update_state, write_db,
}
use nano_sensor.Cve
use nano_sensor.Report.Commands.{new_summary}
use nano_sensor.Agent.Recording.{found, scan_host, IsRecorded, run_scan-IsRecorded}
use nano_sensor.Database.Session.{success, Odbc, Link, prepare, execute, bind_slots, fetch_i64}
use nano_sensor.Database.Engine.{tables}
use nano_sensor.Database.Recording.{
  write_host, write_scan, package_loop, finding_loop, write_latest, write_rows, finish, record_scan,
}
use nano_sensor.Database.Atomic.{settled}
use nano_sensor.Agent.Requests.{clamp, extract_int, scan_wait}
use nano_sensor.Agent.Watchdog.{Watchdog, enter, hung, check}
use nano_sensor.Agent.Delivery.{
  Event, registers, times_out, scans, run_events, registered, served, run_events-waiters,
}

abbrev calm : AgentConfig
calm = record {
  db_connection = [];
  interval_s = pos 300;
  hang_timeout_s = pos 10;
  fault = no_fault;
}

abbrev idle : AgentState
idle = record {
  db_connected = false;
  scans = 0;
  hostname = [];
  last = new_result;
  listeners = [];
  delivered = [];
  freed = [];
  scan_requested = false;
  stopping = false;
}

abbrev bare : Inventory
bare = record {
  agent_name = [];
  agent_version = [];
  agent_stage = [];
  platform = [];
  collected_at_unix_ms = pos 0;
  collect_duration_ms = pos 0;
  host = record { hostname = codes "h"; os_name = []; os_version = []; kernel = []; arch = [] };
  interfaces = [];
  sockets = [];
  processes = [];
  packages = [];
  warnings = [];
}

abbrev quiet : ScanHost
quiet = record {
  inventory = bare;
  index = new_index;
  db = record { connect = none; record_scan = (pos 1, none) };
  duration_ms = pos 5;
  finished_unix_ms = pos 9;
}

abbrev some_events : List Event
some_events = registers 1 ∷ registers 2 ∷ times_out 1 ∷ scans quiet ∷ registers 3 ∷ []

run_events-waiters_example :
    (m' : AgentState) × (run_events calm some_events idle ≡ some m')
    × (served m'.delivered ++ m'.listeners ≡ [] ++ registered some_events)
run_events-waiters_example =
    run_events-waiters calm some_events idle (λ e. ground (arith, e)) (λ e. ground (arith, e)) refl

-- With the planted fault a scan behind a wait that timed out ends the process.
deleted_waiter_is_called :
    run_events
      (record calm { fault = use_after_free })
      (registers 1 ∷ times_out 1 ∷ scans quiet ∷ [])
      idle
    ≡ none
unfolding run_scan register request_scan time_out worst_finding Cve.Scan.scan Cve.Scan.sort_findings
    Cve.Scan.scan_loop
deleted_waiter_is_called = refl

abbrev two_requests : List Request
two_requests = status ∷ scan 1 ∷ []

-- The worker is inside its first section.
abbrev one_step_later : List Thread
one_step_later =
    thread (wake_mu ∷ [])
      (unlock wake_mu ∷ (run_scan_locks no_fault (1 ∷ []) ++ worker_locks no_fault []))
    ∷ request_threads no_fault two_requests

first_step : Reach 1 (agent_threads no_fault ((1 ∷ []) ∷ []) two_requests) one_step_later
unfolding agent_threads worker_locks handle_locks
first_step = next (here (locks refl)) start

agent_progress_example :
    (((ts' : List Thread) × Step one_step_later ts') ⊎ All IsFinished one_step_later)
    × (1 ≤ calls_left (agent_threads no_fault ((1 ∷ []) ∷ []) two_requests))
agent_progress_example =
    agent_progress no_fault refl ((1 ∷ []) ∷ []) two_requests 1 one_step_later first_step

wait_is_half_the_time_out : scan_wait calm (codes " 99999 ") ≡ 5000
unfolding scan_wait clamp extract_int
wait_is_half_the_time_out = refl

no_number_is_the_default : scan_wait calm (codes " x") ≡ 5000
unfolding scan_wait clamp extract_int
no_number_is_the_default = refl

id_is_valid : valid_cve_id (codes "CVE-2024-6387") ≡ true
unfolding valid_cve_id
id_is_valid = refl

id_is_too_long : valid_cve_id (codes "CVE-2024-63870000000000000000000000000") ≡ false
unfolding valid_cve_id
id_is_too_long = refl

abbrev guard : Watchdog
guard = record { next = 4; active = []; timeout = 1000 }

old_entry_is_hung : check 2500 (enter (codes "scan") 1500 guard).1 ≡ some (codes "scan", 1000)
unfolding check enter hung
old_entry_is_hung = refl

abbrev ready : Odbc
ready calls c = record { rc = success; diag = []; column = some (pos 7) }

abbrev unused : Link
unused = record { calls = []; scan_id = pos 0 }

abbrev with_database : AgentConfig
with_database = record calm { db_connection = codes "Driver={ODBC Driver 18 for SQL Server}" }

abbrev recorded_host : ScanHost
recorded_host = scan_host ready none bare new_index (pos 5) (pos 9) unused

abbrev recorded_state : AgentState
recorded_state =
    finish_scan with_database recorded_host (scan_result bare [] new_summary (codes "none")) idle

recorded_ran : run_scan with_database recorded_host idle ≡ some recorded_state
unfolding run_scan worst_finding Cve.Scan.scan Cve.Scan.sort_findings Cve.Scan.scan_loop
    Cve.Scan.count_loop
recorded_ran = refl

recorded_ok : recorded_state.last.ok ≡ true
unfolding deliver_result update_state write_db record_scan write_rows write_host write_scan
    package_loop finding_loop write_latest prepare execute bind_slots fetch_i64 finish Cve.Scan.scan
    Cve.Scan.sort_findings Cve.Scan.scan_loop
recorded_ok = refl

run_scan-IsRecorded_example :
    IsRecorded bare
      (found bare new_index)
      []
      (tables (settled []) (record_scan ready true bare (found bare new_index) unused).1.calls)
run_scan-IsRecorded_example =
    run_scan-IsRecorded with_database ready none bare new_index (pos 5) (pos 9) (settled []) []
      unused idle (record { switches = λ calls on. refl; rolls_back = λ calls. refl }) refl refl tt
      recorded_ran recorded_ok
