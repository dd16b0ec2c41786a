-- ===== src/Agent/Recording.antt =====
-- The scans of src/agent.cpp over the database client of src/db_odbc.cpp.
use mathlib.Core.Option.{some-injective, none-ne-some}
use nano_sensor.Base.{
  ◌≡◌, refl, sym, ap, ◌∙◌, Bool, true, false, Option, none, some, Option-cases, inl, inr, List, [],
  ◌∷◌, ◌++◌, arith, if◌then◌else◌,
}
use nano_sensor.Base.Int.{ℤ}
use nano_sensor.Text.{Bytes}
use nano_sensor.Inventory.{Inventory}
use nano_sensor.Cve.Names.{is_empty}
use nano_sensor.Cve.Index.{CveIndex}
use nano_sensor.Cve.Match.{Finding}
use nano_sensor.Cve.Scan.{scan}
use nano_sensor.Report.Commands.{new_summary}
use nano_sensor.Agent.Results.{ScanResult, worst_finding}
use nano_sensor.Agent.Scan.{
  AgentConfig, AgentState, DbCalls, ScanHost, write_scan, write_connected, write_db, update_state,
  deliver_result, finish_scan, scan_result, run_scan, dangling,
}
use nano_sensor.Database.Session.{Odbc, Link, Result, ok, err}
use nano_sensor.Database.Engine.{Tables, tables}
use nano_sensor.Database.Recording.{record_scan}
use nano_sensor.Database.Runs.{Rows, IsShown}
use nano_sensor.Database.Statements.{scan_rows}
use nano_sensor.Database.Atomic.{IsObedient, Recorded, settled, record_scan-Recorded}

abbrev pub error_of : Result ℤ → Option Bytes
error_of (ok scan) = none
error_of (err e) = some e

-- What a scan of the agent gets from the database, where record_scan runs on a connection.
abbrev pub db_calls : Odbc → Option Bytes → Inventory → List Finding → Link → DbCalls
db_calls odbc connect inv findings l =
    let (r, l') = record_scan odbc true inv findings l in
    record { connect = connect; record_scan = (l'.scan_id, error_of r) }

abbrev pub Visible : Option Bytes → Type 0
Visible none = Unit
Visible (some e) = IsShown e

shown-error : (e : Bytes) → IsShown e → is_empty e ≡ true → ⊥
shown-error [] shown h = shown
shown-error (c ∷ cs) shown h = absurd (ground (arith, h))

write_scan-none :
    (id : ℤ) (e : Option Bytes) (r : ScanResult)
    → Visible e
    → is_empty (write_scan (id, e) r).0.db_error ≡ true
    → e ≡ none
write_scan-none id none r shown h = refl
write_scan-none id (some e) r shown h = absurd (shown-error e shown h)

write_connected-none :
    (e : Option Bytes) (db : DbCalls) (r : ScanResult)
    → Visible e
    → Visible db.record_scan.1
    → is_empty (write_connected e db r).0.db_error ≡ true
    → db.record_scan.1 ≡ none
write_connected-none none db r shown shown' h =
    write_scan-none db.record_scan.0 db.record_scan.1 r shown' h
write_connected-none (some e) db r shown shown' h = absurd (shown-error e shown h)

-- Without an error text the scan was recorded.
write_db-none :
    (cfg : AgentConfig) (db : DbCalls) (connected : Bool) (r : ScanResult)
    → is_empty cfg.db_connection ≡ false
    → Visible db.connect
    → Visible db.record_scan.1
    → is_empty (write_db cfg db connected r).0.db_error ≡ true
    → db.record_scan.1 ≡ none
unfolding write_db
write_db-none cfg db true r given shown shown' h =
    write_scan-none db.record_scan.0 db.record_scan.1 r shown' (rw given at h)
write_db-none cfg db false r given shown shown' h =
    write_connected-none db.connect db r shown shown' (rw given at h)

abbrev pub IsRecorded : Inventory → List Finding → Rows → Tables → Type 0
IsRecorded inv findings durable t =
    (scan_id : ℤ) × (host : ℤ) × (known : Bool) × (t
      ≡ settled (durable ++ scan_rows inv findings scan_id host known))

Recorded-IsRecorded :
    (inv : Inventory) (findings : List Finding) (durable : Rows) (r : Result ℤ) (t : Tables)
    → Recorded inv findings (settled durable) r t
    → error_of r ≡ none
    → IsRecorded inv findings durable t
Recorded-IsRecorded inv findings durable (ok scan) t (host, known, e) h = (scan, host, known, e)
Recorded-IsRecorded inv findings durable (err e) t recorded h = absurd (ground (arith, h))

error_of-Visible :
    (inv : Inventory) (findings : List Finding) (durable : Rows) (r : Result ℤ) (t : Tables)
    → Recorded inv findings (settled durable) r t
    → Visible (error_of r)
error_of-Visible inv findings durable (ok scan) t recorded = tt
error_of-Visible inv findings durable (err e) t recorded = recorded.1

if_some :
    (c : Bool) (m : AgentState) {m' : AgentState} → (if c then none else some m) ≡ some m' → m ≡ m'
if_some true m h = absurd (none-ne-some _ h)
if_some false m h = some-injective _ _ h

finished :
    (cfg : AgentConfig) (host : ScanHost) (r : ScanResult) (m : AgentState)
    → (finish_scan cfg host r m).last.ok
      ≡ is_empty (write_db cfg host.db m.db_connected r).0.db_error
unfolding deliver_result update_state
finished cfg host r m = refl

abbrev pub found : Inventory → CveIndex → List Finding
found inv index = (scan index inv.sockets inv.packages new_summary).0

abbrev pub scan_host : Odbc → Option Bytes → Inventory → CveIndex → ℤ → ℤ → Link → ScanHost
scan_host odbc connect inv index duration_ms finished_unix_ms l = record {
  inventory = inv;
  index = index;
  db = db_calls odbc connect inv (found inv index) l;
  duration_ms = duration_ms;
  finished_unix_ms = finished_unix_ms;
}

module _ (cfg : AgentConfig) (odbc : Odbc) (connect : Option Bytes) (inv : Inventory)
    (index : CveIndex) (duration_ms finished_unix_ms : ℤ) (t0 : Tables) (durable : Rows)
    (l : Link) where
  abbrev host : ScanHost
  host = scan_host odbc connect inv index duration_ms finished_unix_ms l

  -- A scan of an agent with a database that reports ok has recorded its inventory and its findings
  -- in one transaction, where ODBC is obedient, no transaction was open, and a connect that fails
  -- gives an error text.
  pub run_scan-IsRecorded :
      (m : AgentState) {m' : AgentState}
      → IsObedient odbc
      → tables t0 l.calls ≡ settled durable
      → is_empty cfg.db_connection ≡ false
      → Visible connect
      → run_scan cfg (scan_host odbc connect inv index duration_ms finished_unix_ms l) m ≡ some m'
      → m'.last.ok ≡ true
      → IsRecorded inv
          (found inv index)
          durable
          (tables t0 (record_scan odbc true inv (found inv index) l).1.calls)
  unfolding run_scan
  run_scan-IsRecorded m obedient before given shown ran done =
      let recorded =
        record_scan-Recorded odbc inv (found inv index) durable t0 true l obedient before in
      let visible = error_of-Visible inv (found inv index) durable _ _ recorded in
      elim (Option-cases (worst_finding (found inv index) cfg.fault)) [
        | inl e ↦ absurd (none-ne-some _ (rw (e, run_scan) at ran))
        | inr (worst, e) ↦
            let r : ScanResult =
              scan_result inv (found inv index) (scan index inv.sockets inv.packages new_summary).1
                worst in
            let same = if_some (dangling m.listeners m.freed) _ (rw (e, run_scan) at ran) in
            let empty =
              sym (finished cfg host r m) ∙ ap (λ (s : AgentState). s.last.ok) same ∙ done in
            Recorded-IsRecorded inv (found inv index) durable _ _ recorded
              (write_db-none cfg host.db m.db_connected r given shown visible empty)
      ]
