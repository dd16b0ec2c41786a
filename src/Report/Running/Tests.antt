-- ===== src/Report/Running/Tests.antt =====
-- Runs of cmd_run, with an inventory that goes through the spool.
use nano_sensor.Base.{◌≡◌, refl, true, false, none, [], ◌∷◌}
use nano_sensor.Base.Int.{pos}
use nano_sensor.Text.{codes}
use nano_sensor.Inventory.{Inventory}
use nano_sensor.Spool.Queue.{Disk, fine}
use nano_sensor.Report.Options.{Options, default_options}
use nano_sensor.Report.Reporter.{Host}
use nano_sensor.Agent.Results.{parse_fault}
use nano_sensor.Report.Running.{Cycle, RunHost, cmd_run}
use nano_sensor.Report.Tests.{sunny}

abbrev bare : Inventory
bare = record {
  agent_name = codes "nano-sensor";
  agent_version = codes "0.1.0";
  agent_stage = codes "alpha";
  platform = codes "linux";
  collected_at_unix_ms = pos 5;
  collect_duration_ms = pos 1;
  host = record { hostname = codes "h"; os_name = []; os_version = []; kernel = []; arch = [] };
  interfaces = [];
  sockets = [];
  processes = [];
  packages = [];
  warnings = [];
}

abbrev scanned : Cycle
scanned = record {
  collection = record { now = pos 5; run_tag = codes "t"; inventory = bare; files = λ i. fine };
  around = sunny;
}

-- A URL and a pin in the options, and nothing in the directory.
abbrev pinned : Options
pinned = record default_options { url = codes "https://h"; pin = codes "01ab" }

abbrev first_host : Host
first_host = record { pin_text = []; names = []; files = fine; makes_transport = λ c. true }

abbrev no_files : Disk
no_files = record { file = λ id. none; state = none; tmp = none }

abbrev run_host : RunHost
run_host = record {
  log_opens = false;
  reporter = first_host;
  agent_starts = λ cfg. true;
  inventories = scanned ∷ [];
}

abbrev live_host : RunHost
live_host = record run_host { log_opens = true }

log_must_open :
    cmd_run run_host 3 (record pinned { log_file = codes "l" }) no_files
    ≡ record { code = 1; stdout = codes "cannot open log file l\n"; disk = no_files }
unfolding cmd_run
log_must_open = refl

fault_must_be_known : (cmd_run run_host 3 (record pinned { fault = codes "x" }) no_files).code ≡ 2
unfolding cmd_run parse_fault
fault_must_be_known = refl
