-- ===== src/Database/Partial.antt =====
-- Db::record_scan of src/db_odbc.cpp where the calls whose results it ignores may fail.
use mathlib.Core.List.{append-nil}
use nano_sensor.Base.{
  ◌≡◌, refl, sym, ap, ◌∙◌, Bool, true, false, List, [], ◌∷◌, ◌++◌, arith, if◌then◌else◌,
}
use nano_sensor.Base.Int.{ℤ}
use nano_sensor.Text.{Bytes}
use nano_sensor.Inventory.{Inventory}
use nano_sensor.Cve.Match.{Finding}
use nano_sensor.Database.Session.{
  Call, set_autocommit, end_tran, Return, success, no_data, failed, Reply, Link, Result, ok, err,
  Odbc, call, is_ok,
}
use nano_sensor.Database.Engine.{Tables, end_transaction, switch_mode, tables}
use nano_sensor.Database.Recording.{write_rows, fail, committed, finish, record_scan}
use nano_sensor.Database.Runs.{Rows, IsShown, Ended}
use nano_sensor.Database.Statements.{scan_rows, Runs-write_rows}
use nano_sensor.Database.Atomic.{settled, end_tran_lem}

-- The last two calls are a rollback and the switch back to autocommit. What was added to the tables is
-- nothing if the rollback succeeded, and nothing if the switch failed.
pub record IsUndone (durable : Rows) (t : Tables) (calls : List (Call × Reply)) : Type 0 where
  pub before : List (Call × Reply)
  pub rollback : Reply
  pub switch : Reply
  pub last : calls ≡ (set_autocommit true, switch) ∷ (end_tran false, rollback) ∷ before
  pub added : Rows
  pub left : t.durable ≡ durable ++ added
  pub rolled_back : is_ok rollback.rc ≡ true → (added ≡ []) × (t.pending ≡ [])
  pub not_switched : is_ok switch.rc ≡ false → added ≡ []

-- How a recording leaves the tables `t` behind the calls.
abbrev pub IsAtomic :
    Inventory → List Finding → Rows → Result ℤ → Tables → List (Call × Reply) → Type 0
IsAtomic inv findings durable (ok scan) t calls =
    (host : ℤ) × (known : Bool) × (t.durable ≡ durable ++ scan_rows inv findings scan host known)
    × (t.pending ≡ [])
IsAtomic inv findings durable (err e) t calls = IsUndone durable t calls × IsShown e

undo_lem :
    (rolled switched : Bool) (durable : Rows) (t : Tables)
    → t.durable ≡ durable
    → let t1 : Tables = if rolled then end_transaction false t else t in
      let t2 : Tables = if switched then switch_mode true t1 else t1 in
      (added : Rows) × (t2.durable ≡ durable ++ added)
      × (rolled ≡ true → (added ≡ []) × (t2.pending ≡ []))
      × (switched ≡ false → added ≡ [])
undo_lem true true durable t h = ([], ap (λ (l : Rows). l ++ []) h, λ e. (refl, refl), λ e. refl)
undo_lem true false durable t h = ([], h ∙ sym (append-nil durable), λ e. (refl, refl), λ e. refl)
undo_lem false true durable t h = (
  t.pending,
  ap (λ (l : Rows). l ++ t.pending) h,
  λ e. absurd (ground (arith, e)),
  λ e. absurd (ground (arith, e)),
)
undo_lem false false durable t h =
    ([], h ∙ sym (append-nil durable), λ e. absurd (ground (arith, e)), λ e. refl)

switched_lem :
    (switched : Bool) (t : Tables)
    → t.pending ≡ []
    → let t' : Tables = if switched then switch_mode true t else t in
      (t'.durable ≡ t.durable) × (t'.pending ≡ [])
switched_lem true t h = (rw (h, append-nil t.durable) refl, refl)
switched_lem false t h = (refl, h)

module _ (odbc : Odbc) (t0 : Tables) where
  fail-IsUndone :
      (A : Type 0) (what : Bytes) (l : Link) (durable : Rows)
      → (tables t0 l.calls).durable ≡ durable
      → let calls = (fail odbc {A = A} what l).1.calls in IsUndone durable (tables t0 calls) calls
  unfolding fail
  fail-IsUndone A what l durable h =
      let r : Reply = odbc l.calls (end_tran false) in
      let calls : List (Call × Reply) = (end_tran false, r) ∷ l.calls in
      let r' : Reply = odbc calls (set_autocommit true) in
      let (added, left, rolled_back, not_switched) =
        undo_lem (is_ok r.rc) (is_ok r'.rc) durable (tables t0 l.calls) h in
      record {
        before = l.calls;
        rollback = r;
        switch = r';
        last = refl;
        added = added;
        left = left;
        rolled_back = rolled_back;
        not_switched = not_switched;
      }

  -- Behind SQLEndTran: it has committed, or nothing has changed.
  committed-IsAtomic :
      (inv : Inventory) (findings : List Finding) (durable : Rows) (host : ℤ) (known : Bool)
      (scan : ℤ) (rc : Return) (diag : Bytes) (l : Link)
      → (is_ok rc ≡ true
          → tables t0 l.calls ≡ record {
            durable = durable ++ scan_rows inv findings scan host known;
            pending = [];
            autocommit = false;
          })
      → (is_ok rc ≡ false → (tables t0 l.calls).durable ≡ durable)
      → let (r, l') = committed odbc rc diag scan l in
        IsAtomic inv findings durable r (tables t0 l'.calls) l'.calls
  unfolding fail
  committed-IsAtomic inv findings durable host known scan success diag l done undone =
      let switched = is_ok (odbc l.calls (set_autocommit true)).rc in
      let (same, none_left) =
        switched_lem switched (tables t0 l.calls) (ap (λ (t : Tables). t.pending) (done refl)) in
      (host, known, same ∙ ap (λ (t : Tables). t.durable) (done refl), none_left)
  committed-IsAtomic inv findings durable host known scan no_data diag l done undone =
      (fail-IsUndone ℤ diag l durable (undone refl), tt)
  committed-IsAtomic inv findings durable host known scan failed diag l done undone =
      (fail-IsUndone ℤ diag l durable (undone refl), tt)

  finish-IsAtomic :
      (inv : Inventory) (findings : List Finding) (durable : Rows) (r : Result ℤ) (l : Link)
      → Ended IsShown
          (λ scan rows.
            (host : ℤ) × (known : Bool) × (rows ≡ scan_rows inv findings scan host known))
          t0
          (record { durable = durable; pending = []; autocommit = false })
          (r, l)
      → let (r', l') = finish odbc r l in
        IsAtomic inv findings durable r' (tables t0 l'.calls) l'.calls
  unfolding finish fail
  finish-IsAtomic inv findings durable (err e) l (rows, adds, shown) =
      (fail-IsUndone ℤ e l durable adds.durable, shown)
  finish-IsAtomic inv findings durable (ok scan) l (rows, adds, (host, known, all)) =
      let r : Reply = odbc l.calls (end_tran true) in
      let (done, undone) =
        end_tran_lem (scan_rows inv findings scan host known) durable r.rc (tables t0 l.calls)
          (rw (← all) adds) in
      committed-IsAtomic inv findings durable host known scan r.rc r.diag _ done undone

-- From a connection with no open transaction, under autocommit, where autocommit is switched off as
-- asked at the start; any other call may fail. A recording that returns a scan id has written
-- exactly the statements of the whole scan under that id, the host first, then the scan, the packages
-- in order from number 0, the findings in order, and the pointer to the latest scan, and leaves no
-- transaction open. Any other ends with an error text that is not empty, a rollback and a switch back
-- to autocommit: if the rollback succeeds nothing is written and no transaction is left open, and if
-- the switch fails nothing is written. Only a rollback that fails in front of a switch that succeeds
-- can leave a part of the scan in the tables.
pub record_scan-IsAtomic :
    (odbc : Odbc) (inv : Inventory) (findings : List Finding) (durable : Rows) (t0 : Tables)
    (l : Link)
    → (odbc l.calls (set_autocommit false)).rc ≡ success
    → tables t0 l.calls ≡ settled durable
    → let (r, l') = record_scan odbc true inv findings l in
      IsAtomic inv findings durable r (tables t0 l'.calls) l'.calls
unfolding record_scan
record_scan-IsAtomic odbc inv findings durable t0 l off before =
    let l1 : Link = (call odbc (set_autocommit false) l).1 in
    let opened : tables t0 l1.calls
        ≡ record { durable = durable; pending = []; autocommit = false } =
      rw (off, before) in
    let ended = (Runs-write_rows odbc inv findings).at t0 l1 (rw opened) in
    finish-IsAtomic odbc t0 inv findings durable (write_rows odbc inv findings l1).0
      (write_rows odbc inv findings l1).1 (rw opened at ended)
