-- ===== src/Agent/Scan.antt =====
-- run_scan of src/agent.cpp, with the state of Agent::Impl that it changes.
use nano_sensor.Base.{
  ℕ, ◌+◌, Bool, true, false, Option, none, some, List, [], ◌∷◌, ◌++◌, ◌==◌, ◌||◌, if◌then◌else◌,
  length,
}
use nano_sensor.Base.Int.{ℤ, pos}
use nano_sensor.Text.{Bytes}
use nano_sensor.Inventory.{Inventory}
use nano_sensor.Cve.Names.{is_empty}
use nano_sensor.Cve.Index.{CveIndex, IndexError, load_rules, load_aliases}
use nano_sensor.Cve.Match.{Finding}
use nano_sensor.Cve.Scan.{ScanSummary, scan}
use nano_sensor.Report.Commands.{new_index, new_summary}
use nano_sensor.Agent.Locks.{Fault, no_fault, use_after_free, deadlock, worker_crash}
use nano_sensor.Agent.Results.{ScanResult, worst_finding}

-- The members of AgentConfig that the scans and the requests read.
pub record AgentConfig : Type 0 where
  pub db_connection : Bytes
  pub interval_s : ℤ
  pub hang_timeout_s : ℤ
  pub fault : Fault

-- The members of Agent::Impl; a waiter is a number, `delivered` has the results that waiters got, and
-- `freed` the waiters that were deleted while they may still be registered.
pub record AgentState : Type 0 where
  pub db_connected : Bool
  pub scans : ℕ
  pub hostname : Bytes
  pub last : ScanResult
  pub listeners : List ℕ
  pub delivered : List (ℕ × ScanResult)
  pub freed : List ℕ
  pub scan_requested : Bool
  pub stopping : Bool

-- The calls on the database in one scan: the error of connect, and of record_scan with the scan id
-- that it leaves.
pub record DbCalls : Type 0 where
  pub connect : Option Bytes
  pub record_scan : ℤ × Option Bytes

-- What a scan meets: the inventory, the index, the database and the clock.
pub record ScanHost : Type 0 where
  pub inventory : Inventory
  pub index : CveIndex
  pub db : DbCalls
  pub duration_ms : ℤ
  pub finished_unix_ms : ℤ

-- A connection that is there; record_scan drops it where it fails.
abbrev pub write_scan : ℤ × Option Bytes → ScanResult → ScanResult × Bool
write_scan (id, none) r = (record r { scan_id = id }, true)
write_scan (id, some err) r = (record r { scan_id = id; db_error = err }, false)

abbrev pub write_connected : Option Bytes → DbCalls → ScanResult → ScanResult × Bool
write_connected none db r = write_scan db.record_scan r
write_connected (some err) db r = (record r { db_error = err }, false)

-- The result, and whether the database is connected behind it.
unfoldable pub write_db : AgentConfig → DbCalls → Bool → ScanResult → ScanResult × Bool
write_db cfg db connected r =
    if is_empty cfg.db_connection
    then (r, connected)
    else if connected
    then write_scan db.record_scan r
    else write_connected db.connect db r

unfoldable pub update_state : Inventory → ScanResult → AgentState → AgentState
update_state inv r m = record m { scans = m.scans + 1; hostname = inv.host.hostname; last = r }

-- Each waiter gets the result.
abbrev pub hand_out : List ℕ → ScanResult → List (ℕ × ScanResult)
hand_out [] r = []
hand_out (n ∷ ns) r = (n, r) ∷ hand_out ns r

-- Listeners are swapped out and called.
unfoldable pub deliver_result : ScanResult → AgentState → AgentState
deliver_result r m = record m { listeners = []; delivered = m.delivered ++ hand_out m.listeners r }

abbrev pub contains : ℕ → List ℕ → Bool
contains n [] = false
contains n (k ∷ ks) = (k == n) || contains n ks

-- A listener that was deleted.
abbrev pub dangling : List ℕ → List ℕ → Bool
dangling [] freed = false
dangling (n ∷ ns) freed = contains n freed || dangling ns freed

-- The result of a scan before the database is written.
abbrev pub scan_result : Inventory → List Finding → ScanSummary → Bytes → ScanResult
scan_result inv findings summary worst = record {
  ok = false;
  scan_id = pos 0;
  packages = length inv.packages;
  findings = length findings;
  critical = summary.critical;
  duration_ms = pos 0;
  finished_unix_ms = pos 0;
  worst = worst;
  db_error = [];
}

abbrev pub finish_scan : AgentConfig → ScanHost → ScanResult → AgentState → AgentState
finish_scan cfg host r m =
    let (r', connected) = write_db cfg host.db m.db_connected r in
    let r'' : ScanResult = record r' {
      ok = is_empty r'.db_error;
      duration_ms = host.duration_ms;
      finished_unix_ms = host.finished_unix_ms;
    } in
    deliver_result r'' (update_state host.inventory r'' (record m { db_connected = connected }))

-- run_scan; none where an exception, or the call of a listener that was deleted, ends the process.
unfoldable pub run_scan : AgentConfig → ScanHost → AgentState → Option AgentState
run_scan cfg host m =
    let inv = host.inventory in
    let (found, summary) = scan host.index inv.sockets inv.packages new_summary in
    elim (worst_finding found cfg.fault) [
      | none ↦ none
      | some worst ↦
          if dangling m.listeners m.freed
          then none
          else some (finish_scan cfg host (scan_result inv found summary worst) m)
    ]

unfoldable pub request_scan : AgentState → AgentState
request_scan m = record m { scan_requested = true }

-- One round of worker_loop behind its wait: the state, and whether the loop returns.
unfoldable pub worker_round : AgentConfig → ScanHost → AgentState → Option (AgentState × Bool)
worker_round cfg host m = elim m.stopping [
  | true ↦ some (m, true)
  | false ↦ elim (run_scan cfg host (record m { scan_requested = false })) [
    | none ↦ none
    | some m' ↦ some (m', false)
  ]
]

-- handle_scan in front of its wait, with and without the planted fault: the waiter joins the listeners
-- and a scan is asked for.
unfoldable pub register : ℕ → AgentState → AgentState
register waiter m = request_scan (record m { listeners = m.listeners ++ (waiter ∷ []) })

-- handle_scan behind a wait that timed out: with the planted fault the waiter is deleted, and without
-- it the listeners keep it alive.
unfoldable pub time_out : Fault → ℕ → AgentState → AgentState
time_out no_fault waiter m = m
time_out use_after_free waiter m = record m { freed = waiter ∷ m.freed }
time_out deadlock waiter m = m
time_out worker_crash waiter m = m

unfoldable pub stop : AgentState → AgentState
stop m = record m { stopping = true }

-- Agent::start where there is no control pipe: the error of the index, the index, and the state.
-- The errors of connect and of the pipe are not fatal.
unfoldable pub start :
    (Bytes → ℕ)
    → AgentConfig
    → Option Bytes
    → Option Bytes
    → Option Bytes
    → AgentState
    → Option IndexError × CveIndex × AgentState
start strtod cfg rules aliases connect m =
    let (e, x) = load_rules strtod rules new_index in
    let (e', x') = load_aliases aliases x in
    let connected =
      if is_empty cfg.db_connection
      then false
      else elim connect [ none ↦ true | some err ↦ false ] in
    elim e [
      | some error ↦ (some error, x, m)
      | none ↦ elim e' [
        | some error ↦ (some error, x', m)
        | none ↦ (none, x', record m { db_connected = connected })
      ]
    ]
