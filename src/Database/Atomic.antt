-- ===== src/Database/Atomic.antt =====
-- The transaction of Db::record_scan of src/db_odbc.cpp.
use mathlib.Core.List.{append-nil}
use nano_sensor.Base.{◌≡◌, refl, Bool, true, false, List, [], ◌++◌, arith, ap, ◌∙◌, if◌then◌else◌}
use nano_sensor.Base.Int.{ℤ}
use nano_sensor.Text.{Bytes}
use nano_sensor.Inventory.{Inventory}
use nano_sensor.Cve.Match.{Finding}
use nano_sensor.Database.Session.{
  Call, set_autocommit, end_tran, Return, success, no_data, failed, Reply, Link, Result, ok, err,
  Odbc, call, is_ok,
}
use nano_sensor.Database.Engine.{Tables, end_transaction, tables}
use nano_sensor.Database.Recording.{write_rows, fail, committed, finish, record_scan}
use nano_sensor.Database.Runs.{Rows, Adds, IsShown, Ended}
use nano_sensor.Database.Statements.{scan_rows, Runs-write_rows}

-- ODBC switches the mode and rolls back where it is asked to.
pub record IsObedient (odbc : Odbc) : Type 0 where
  pub switches :
      (calls : List (Call × Reply)) (on : Bool) → (odbc calls (set_autocommit on)).rc ≡ success
  pub rolls_back : (calls : List (Call × Reply)) → (odbc calls (end_tran false)).rc ≡ success

-- How a recording leaves the tables `t`.
abbrev pub Recorded : Inventory → List Finding → Tables → Result ℤ → Tables → Type 0
Recorded inv findings t (ok scan) t' =
    (host : ℤ) × (known : Bool) × (t'
      ≡ record t { durable = t.durable ++ scan_rows inv findings scan host known })
Recorded inv findings t (err e) t' = (t' ≡ t) × IsShown e

-- The tables have the rows `durable`, and no transaction is open.
abbrev pub settled : Rows → Tables
settled durable = record { durable = durable; pending = []; autocommit = true }

pub end_tran_lem :
    (rows durable : Rows) (rc : Return) (t : Tables)
    → Adds rows (record { durable = durable; pending = []; autocommit = false }) t
    → let t' : Tables = if is_ok rc then end_transaction true t else t in
      (is_ok rc ≡ true
        → t' ≡ record { durable = durable ++ rows; pending = []; autocommit = false })
      × (is_ok rc ≡ false → t'.durable ≡ durable)
end_tran_lem rows durable success t adds = (λ e. ground arith, λ e. absurd (ground arith))
end_tran_lem rows durable no_data t adds = (λ e. absurd (ground arith), λ e. adds.durable)
end_tran_lem rows durable failed t adds = (λ e. absurd (ground arith), λ e. adds.durable)

module _ (odbc : Odbc) (obedient : IsObedient odbc) (t0 : Tables) where
  tables-fail :
      (A : Type 0) (what : Bytes) (l : Link)
      → tables t0 (fail odbc {A = A} what l).1.calls ≡ settled (tables t0 l.calls).durable
  unfolding fail
  tables-fail A what l =
      rw (obedient.rolls_back l.calls, obedient.switches _ true)
        (rw (append-nil (tables t0 l.calls).durable))

  -- Behind SQLEndTran: it has committed, or nothing has changed.
  committed-Recorded :
      (inv : Inventory) (findings : List Finding) (durable : Rows) (host : ℤ) (known : Bool)
      (scan : ℤ) (rc : Return) (diag : Bytes) (l : Link)
      → (is_ok rc ≡ true
          → tables t0 l.calls ≡ record {
            durable = durable ++ scan_rows inv findings scan host known;
            pending = [];
            autocommit = false;
          })
      → (is_ok rc ≡ false → (tables t0 l.calls).durable ≡ durable)
      → let (r, l') = committed odbc rc diag scan l in
        Recorded inv findings (settled durable) r (tables t0 l'.calls)
  unfolding fail
  committed-Recorded inv findings durable host known scan success diag l done undone =
      (host, known, rw (obedient.switches l.calls true, done refl) (ap settled (append-nil _)))
  committed-Recorded inv findings durable host known scan no_data diag l done undone =
      (tables-fail ℤ diag l ∙ ap settled (undone refl), tt)
  committed-Recorded inv findings durable host known scan failed diag l done undone =
      (tables-fail ℤ diag l ∙ ap settled (undone refl), tt)

  finish-Recorded :
      (inv : Inventory) (findings : List Finding) (durable : Rows) (r : Result ℤ) (l : Link)
      → Ended IsShown
          (λ scan rows.
            (host : ℤ) × (known : Bool) × (rows ≡ scan_rows inv findings scan host known))
          t0
          (record { durable = durable; pending = []; autocommit = false })
          (r, l)
      → let (r', l') = finish odbc r l in
        Recorded inv findings (settled durable) r' (tables t0 l'.calls)
  unfolding finish fail
  finish-Recorded inv findings durable (err e) l (rows, adds, shown) =
      (tables-fail ℤ e l ∙ ap settled adds.durable, shown)
  finish-Recorded inv findings durable (ok scan) l (rows, adds, (host, known, all)) =
      let r : Reply = odbc l.calls (end_tran true) in
      let (done, undone) =
        end_tran_lem (scan_rows inv findings scan host known) durable r.rc (tables t0 l.calls)
          (rw (← all) adds) in
      committed-Recorded inv findings durable host known scan r.rc r.diag _ done undone

-- Where ODBC switches the mode and rolls back as asked, and no transaction is open: a recording that
-- returns a scan id has written exactly the statements of the whole scan under it. Any other has
-- written nothing, and its error text is not empty. In both cases autocommit is on behind it.
pub record_scan-Recorded :
    (odbc : Odbc) (inv : Inventory) (findings : List Finding) (durable : Rows) (t0 : Tables)
    (connected : Bool) (l : Link)
    → IsObedient odbc
    → tables t0 l.calls ≡ settled durable
    → let (r, l') = record_scan odbc connected inv findings l in
      Recorded inv findings (settled durable) r (tables t0 l'.calls)
unfolding record_scan
record_scan-Recorded odbc inv findings durable t0 false l obedient before = (before, tt)
record_scan-Recorded odbc inv findings durable t0 true l obedient before =
    let l1 : Link = (call odbc (set_autocommit false) l).1 in
    let opened : tables t0 l1.calls
        ≡ record { durable = durable; pending = []; autocommit = false } =
      rw (obedient.switches l.calls false, before) in
    let ended = (Runs-write_rows odbc inv findings).at t0 l1 (rw opened) in
    finish-Recorded odbc obedient t0 inv findings durable (write_rows odbc inv findings l1).0
      (write_rows odbc inv findings l1).1 (rw opened at ended)
