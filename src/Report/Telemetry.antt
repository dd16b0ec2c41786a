-- ===== src/Report/Telemetry.antt =====
-- What the telemetry cycles of cmd_run in src/main.cpp do to the queue of the spool.
use nano_sensor.Base.{ℕ, ◌≡◌, true, false, none, some, not, ◌&&◌, List, [], ◌∷◌, ◌++◌}
use nano_sensor.Text.{Bytes}
use nano_sensor.Spool.Codec.{Fits}
use nano_sensor.Spool.Queue.{Spool, Disk}
use nano_sensor.Spool.Opening.{entry_ids}
use nano_sensor.Cve.Names.{is_empty}
use nano_sensor.Report.Options.{Options}
use nano_sensor.Agent.Locks.{Fault}
use nano_sensor.Agent.Results.{parse_fault}
use nano_sensor.Report.Drain.{Drain}
use nano_sensor.Report.Drained.{acknowledged}
use nano_sensor.Report.Reporter.{inventory_record, init, limits, pin_of, transport_config}
use nano_sensor.Report.Running.{RunHost, agent_config, Cycle, cycles}

-- The record of the inventory of a cycle.
abbrev pub record_of : Cycle → Bytes
record_of c = inventory_record c.collection c.collection.inventory

abbrev pub records_of : List Cycle → List Bytes
records_of [] = []
records_of (c ∷ cs) = record_of c ∷ records_of cs

-- The payloads of the batches of all drains that were acknowledged.
abbrev pub all_acknowledged : List Drain → List Bytes
all_acknowledged [] = []
all_acknowledged (t ∷ ts) = acknowledged t ++ all_acknowledged ts

-- The record of the cycle fits a frame, its segment opens, and its frame is written whole.
pub record IsWritten (c : Cycle) : Type 0 where
  pub fits : Fits (record_of c)
  pub opens : (c.collection.files 0).segment_opens ≡ true
  pub whole : (c.collection.files 0).segment_cut ≡ none

-- The log file opens if there is one, the fault is known, and there are a URL, a pin, a transport, and
-- a directory that can be read and holds neither a segment nor a state file; the agent starts.
pub record IsFirstStart (host : RunHost) (opt : Options) (d : Disk) : Type 0 where
  pub fault : Fault
  pub known : parse_fault opt.fault ≡ some fault
  pub logs : (not (is_empty opt.log_file) && not host.log_opens) ≡ false
  pub has_url : is_empty opt.url ≡ false
  pub starts : host.agent_starts (agent_config opt fault) ≡ true
  pub pinned : is_empty (pin_of host.reporter opt) ≡ false
  pub connects :
      host.reporter.makes_transport (transport_config opt (pin_of host.reporter opt)) ≡ true
  pub created : host.reporter.files.create_ok ≡ true
  pub scanned : host.reporter.files.scan_ok ≡ true
  pub no_segments : entry_ids host.reporter.names ≡ []
  pub files : (j : ℕ) → d.file j ≡ none
  pub no_state : d.state ≡ none

-- The drains of the telemetry in cmd_run, and the spool and its directory behind them.
abbrev pub telemetry : RunHost → ℕ → Options → Disk → List Drain × Spool × Disk
telemetry host fuel opt d =
    let (e, s, d') = init host.reporter opt d in cycles (limits opt) fuel host.inventories s d'
