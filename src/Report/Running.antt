-- ===== src/Report/Running.antt =====
-- cmd_run of src/main.cpp: the agent, and the telemetry that hangs off its inventories.
mod Tests
use nano_sensor.Base.{ℕ, Bool, not, ◌&&◌, Option, none, some, List, [], ◌∷◌, ◌++◌, if◌then◌else◌}
use nano_sensor.Text.{Bytes, codes}
use nano_sensor.Cve.Names.{is_empty}
use nano_sensor.Spool.Queue.{Spool, Disk, stats}
use nano_sensor.Agent.Locks.{Fault}
use nano_sensor.Agent.Results.{parse_fault}
use nano_sensor.Agent.Scan.{AgentConfig}
use nano_sensor.Report.Drain.{Surroundings, Limits, Drain, drain}
use nano_sensor.Report.Options.{Options}
use nano_sensor.Report.Reporter.{Collection, Host, Report, init, append_inventory, limits, failed}

-- One inventory that the agent hands over, and what the drain behind it meets.
pub record Cycle : Type 0 where
  pub collection : Collection
  pub around : Surroundings

-- The call of stats for the log line, which brings the counters of the spool up to date.
abbrev pub refreshed : Drain → Drain
refreshed t = record t { spool = stats t.spool t.disk }

-- on_inventory: the drain follows whether the inventory was appended or not.
unfoldable pub on_inventory : Limits → ℕ → Cycle → Spool → Disk → Drain
on_inventory opt fuel c s d =
    let (e, s', d') = append_inventory c.collection c.collection.inventory s d in
    refreshed (drain c.around opt fuel s' d')

-- The inventories in turn: what each drain did, and the spool and its directory behind the last.
unfoldable pub cycles : Limits → ℕ → List Cycle → Spool → Disk → List Drain × Spool × Disk
cycles opt fuel [] s d = ([], s, d)
cycles opt fuel (c ∷ cs) s d =
    let t = on_inventory opt fuel c s d in
    let (ts, s', d') = cycles opt fuel cs t.spool t.disk in (t ∷ ts, s', d')

-- What cmd_run meets: whether the log file opens, the calls of the reporter's init, whether
-- Agent::start succeeds, and the inventories until the stop request.
pub record RunHost : Type 0 where
  pub log_opens : Bool
  pub reporter : Host
  pub agent_starts : AgentConfig → Bool
  pub inventories : List Cycle

abbrev pub agent_config : Options → Fault → AgentConfig
agent_config opt fault = record {
  db_connection = opt.db;
  interval_s = opt.interval_s;
  hang_timeout_s = opt.hang_timeout_s;
  fault = fault;
}

-- The body that service::run calls, without telemetry.
abbrev pub run_agent : RunHost → AgentConfig → Disk → Report
run_agent host cfg d = record {
  code = if host.agent_starts cfg then 0 else 1;
  stdout = [];
  disk = d;
}

-- The same with the reporter's spool.
abbrev pub run_reporting : RunHost → ℕ → Options → AgentConfig → Spool → Disk → Report
run_reporting host fuel opt cfg s d =
    let (ts, s', d') = cycles (limits opt) fuel host.inventories s d in
    if host.agent_starts cfg then record { code = 0; stdout = []; disk = d' } else failed 1 d

abbrev pub run_configured : RunHost → ℕ → Options → AgentConfig → Disk → Report
run_configured host fuel opt cfg d =
    let (e, s, d') = init host.reporter opt d in
    if is_empty opt.url
    then run_agent host cfg d
    else elim e [ some error ↦ failed 1 d' | none ↦ run_reporting host fuel opt cfg s d' ]

-- cmd_run, with at most `fuel` rounds of each drain; the dumps of crashes are left out.
unfoldable pub cmd_run : RunHost → ℕ → Options → Disk → Report
cmd_run host fuel opt d =
    if not (is_empty opt.log_file) && not host.log_opens
    then record {
      code = 1;
      stdout = codes "cannot open log file " ++ (opt.log_file ++ (10 ∷ []));
      disk = d;
    }
    else elim (parse_fault opt.fault) [
      | none ↦ failed 2 d
      | some fault ↦ run_configured host fuel opt (agent_config opt fault) d
    ]
