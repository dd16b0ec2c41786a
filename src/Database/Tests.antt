-- ===== src/Database/Tests.antt =====
-- Recordings through a database that answers each row with the same id.
use nano_sensor.Base.{
  ℕ, ◌+◌, ◌≤◌, zero, suc, arith, ◌≡◌, refl, true, false, none, some, [], ◌∷◌, length,
}
use nano_sensor.Base.Int.{pos}
use nano_sensor.Text.{codes}
use nano_sensor.Inventory.{Inventory, HostInfo, Package}
use nano_sensor.Database.Session.{
  Call, set_autocommit, execute_call, end_tran, success, failed, Reply, Link, err, Odbc,
  insert_package, update_latest, i64, sql_of, prepare, execute, bind_slots, fetch_i64,
}
use nano_sensor.Database.Engine.{tables}
use nano_sensor.Database.Recording.{
  write_host, write_scan, package_loop, finding_loop, write_latest, write_rows, fail, finish,
  record_scan,
}
use nano_sensor.Database.Atomic.{settled}
use nano_sensor.Database.Partial.{IsAtomic, record_scan-IsAtomic}
use nano_sensor.Database.Connection.{
  Connection, Dialled, refusals, disconnect, connect, Connects, connect-Connects,
}

abbrev zlib : Package
zlib = record { name = codes "zlib"; version = codes "1.2"; vendor = []; source = codes "dpkg" }

abbrev pub host : HostInfo
host = record {
  hostname = codes "h";
  os_name = codes "Debian";
  os_version = codes "12";
  kernel = [];
  arch = [];
}

abbrev pub inventory : Inventory
inventory = record {
  agent_name = [];
  agent_version = [];
  agent_stage = [];
  platform = [];
  collected_at_unix_ms = pos 1700000000000;
  collect_duration_ms = pos 5;
  host = host;
  interfaces = [];
  sockets = [];
  processes = [];
  packages = zlib ∷ zlib ∷ [];
  warnings = [];
}

abbrev done : Reply
done = record { rc = success; diag = []; column = some (pos 7) }

abbrev refused : Reply
refused = record { rc = failed; diag = codes "no"; column = none }

abbrev pub ready : Odbc
ready calls c = done

-- The second package is refused, and the mode is never switched.
abbrev stubborn_reply : Call → Reply
stubborn_reply (set_autocommit on) = refused
stubborn_reply (execute_call insert_package (a ∷ i64 (pos (suc zero)) ∷ ps)) = refused
stubborn_reply c = done

abbrev stubborn : Odbc
stubborn calls c = stubborn_reply c

-- The commit is refused.
abbrev unsure_reply : Call → Reply
unsure_reply (end_tran true) = refused
unsure_reply c = done

abbrev unsure : Odbc
unsure calls c = unsure_reply c

abbrev pub start : Link
start = record { calls = []; scan_id = pos 0 }

-- A mode that is not switched leaves a part of the scan in the tables.
stubborn_leaves_rows :
    (record_scan stubborn true inventory [] start).0 ≡ err (codes "package insert: no")
unfolding record_scan write_rows write_host write_scan package_loop prepare execute bind_slots
    fetch_i64 fail finish
stubborn_leaves_rows = refl

stubborn_leaves_three :
    length (tables (settled []) (record_scan stubborn true inventory [] start).1.calls).durable ≡ 3
unfolding record_scan write_rows write_host write_scan package_loop prepare execute bind_slots
    fetch_i64 fail finish
stubborn_leaves_three = refl

-- The scan id of a scan that was rolled back is left behind.
rolled_back_id_stays : (record_scan unsure true inventory [] start).1.scan_id ≡ pos 7
unfolding record_scan write_rows write_host write_scan package_loop finding_loop write_latest
    prepare execute bind_slots fetch_i64 fail finish
rolled_back_id_stays = refl

latest_is_set :
    sql_of update_latest ≡ codes "UPDATE dbo.hosts SET latest_scan_id = ? WHERE host_id = ?"
unfolding sql_of
latest_is_set = refl

-- A database whose rollback fails, so that the switch back to autocommit commits a part of the scan.
abbrev leaky_reply : Call → Reply
leaky_reply (end_tran false) = refused
leaky_reply (execute_call insert_package (a ∷ i64 (pos (suc zero)) ∷ ps)) = refused
leaky_reply c = done

abbrev leaky : Odbc
leaky calls c = leaky_reply c

leaky_leaves_three :
    length (tables (settled []) (record_scan leaky true inventory [] start).1.calls).durable ≡ 3
unfolding record_scan write_rows write_host write_scan package_loop prepare execute bind_slots
    fetch_i64 fail finish
leaky_leaves_three = refl

record_scan-IsAtomic_example :
    let (r, l') = record_scan leaky true inventory [] start in
    IsAtomic inventory [] [] r (tables (settled []) l'.calls) l'.calls
record_scan-IsAtomic_example =
    record_scan-IsAtomic leaky inventory [] [] (settled []) start refl refl

abbrev no_connection : Connection
no_connection = record { env = false; dbc = false; connected = false; allocated = 0 }

-- No driver is installed.
abbrev missing_driver : Dialled
missing_driver = record {
  env = true;
  dbc = true;
  driver = λ handle. (failed, codes "IM002");
  before = record { dbc = true; env = true };
  behind = record { dbc = true; env = true };
}

connect-Connects_example :
    (now : ℕ) × (0 ≤ now)
    × (now ≤ 0 + (refusals missing_driver.before + refusals missing_driver.behind))
    × Connects now (connect missing_driver no_connection)
connect-Connects_example =
    connect-Connects missing_driver no_connection 0
      (record { counted = refl; held = λ on. absurd (ground arith) }) refl

-- A connection that ODBC does not close is lost.
handle_is_lost :
    (connect
      (record missing_driver { behind = record { dbc = false; env = false } })
      no_connection).1.allocated
    ≡ 2
unfolding connect disconnect
handle_is_lost = refl
