-- ===== src/Database/Calls.antt =====
-- What each call of src/db_odbc.cpp adds to the open transaction.
use nano_sensor.Base.{ℕ, suc, ◌≡◌, refl, false, Option, List, [], ◌∷◌, ◌++◌, arith}
use nano_sensor.Base.Int.{ℤ}
use nano_sensor.Text.{Bytes, codes}
use nano_sensor.Database.Session.{
  Param, Statement, Call, prepare_call, bind_call, execute_call, fetch_call, close_cursor, Return,
  success, no_data, failed, Reply, Odbc, call, check_ok, prepare, bind_slots, executed, execute,
  fetched, fetch_i64,
}
use nano_sensor.Database.Engine.{Tables, run_statement, step, tables}
use nano_sensor.Database.Runs.{
  Rows, Adds, Adds-nothing, IsShown, IsAny, Runs, Silent, Runs-pure, Runs-raise, Runs-bind,
  Runs-then, Runs-weaken, IsLabel,
}

-- The row that a statement leaves.
abbrev pub row_run : Statement → List Param → Return → Rows
row_run s ps success = (s, ps) ∷ []
row_run s ps no_data = (s, ps) ∷ []
row_run s ps failed = []

Adds-step :
    (s : Statement) (ps : List Param) (rc : Return) (t : Tables)
    → t.autocommit ≡ false
    → Adds (row_run s ps rc) t (run_statement s ps rc t)
Adds-step s ps success t off = record {
  durable = ground arith;
  pending = ground arith;
  autocommit = ground arith;
}
Adds-step s ps no_data t off = record {
  durable = ground arith;
  pending = ground arith;
  autocommit = ground arith;
}
Adds-step s ps failed t off = Adds-nothing t off

Runs-check_ok :
    (what : Bytes) (rc : Return) (diag : Bytes)
    → IsLabel what
    → Runs IsShown Silent (check_ok what rc diag)
Runs-check_ok what success diag shown = Runs-pure Silent tt refl
Runs-check_ok what no_data diag shown = Runs-raise Silent _ (shown diag)
Runs-check_ok what failed diag shown = Runs-raise Silent _ (shown diag)

Runs-executed :
    (s : Statement) (ps : List Param) (rc : Return) (diag : Bytes) (u : Rows)
    → u ≡ row_run s ps rc
    → Runs IsAny (λ (x : Unit {0}) v. u ++ v ≡ (s, ps) ∷ []) (executed rc diag)
Runs-executed s ps success diag u e = Runs-pure _ tt (rw e)
Runs-executed s ps no_data diag u e = Runs-pure _ tt (rw e)
Runs-executed s ps failed diag u e = Runs-raise _ diag tt

module _ (odbc : Odbc) where
  -- A call that leaves the tables alone.
  pub Runs-quiet :
      {E : Bytes → Type 0} (c : Call)
      → ((r : Reply) (t : Tables) → step c r t ≡ t)
      → Runs E Silent (call odbc c)
  Runs-quiet c quiet = record {
    at = λ t0 l off. ([], rw (quiet (odbc l.calls c)) (Adds-nothing (tables t0 l.calls) off), refl);
  }

  Runs-execute_call :
      {E : Bytes → Type 0} (s : Statement) (ps : List Param)
      → Runs E (λ r rows. rows ≡ row_run s ps r.rc) (call odbc (execute_call s ps))
  Runs-execute_call s ps = record {
    at = λ t0 l off.
        let r = odbc l.calls (execute_call s ps) in
        (row_run s ps r.rc, Adds-step s ps r.rc (tables t0 l.calls) off, refl);
  }

  pub Runs-prepare : (s : Statement) → Runs IsShown Silent (prepare odbc s)
  unfolding prepare
  Runs-prepare s =
      Runs-then Silent (call odbc (prepare_call s)) _ (Runs-quiet (prepare_call s) (λ r t. refl))
        (λ r. Runs-check_ok (codes "prepare: ") r.rc r.diag (λ e. tt))

  Runs-bind_slots : (i : ℕ) (ps : List Param) → Runs IsShown Silent (bind_slots odbc i ps)
  unfolding bind_slots
  Runs-bind_slots i [] = Runs-pure Silent tt refl
  Runs-bind_slots i (p ∷ ps) =
      Runs-then Silent (call odbc (bind_call i p)) _ (Runs-quiet (bind_call i p) (λ r t. refl))
        (λ r.
          Runs-then Silent _ _ (Runs-check_ok (codes "bind: ") r.rc r.diag (λ e. tt))
            (λ u. Runs-bind_slots (suc i) ps))

  -- A statement that runs leaves its row.
  pub Runs-execute :
      (s : Statement) (ps : List Param)
      → Runs IsAny (λ (x : Unit {0}) rows. rows ≡ (s, ps) ∷ []) (execute odbc s ps)
  unfolding execute
  Runs-execute s ps =
      Runs-then _ (bind_slots odbc 1 ps) _ (Runs-weaken (Runs-bind_slots 1 ps)) (λ u.
        Runs-bind _ (λ r (x : Unit {0}) v. row_run s ps r.rc ++ v ≡ (s, ps) ∷ []) _
          (call odbc (execute_call s ps)) _ (Runs-execute_call s ps)
          (λ r. Runs-executed s ps r.rc r.diag (row_run s ps r.rc) refl) (λ r x u v e k. rw e k))

  Runs-fetched : (rc : Return) (column : Option ℤ) → Runs IsAny Silent (fetched rc column)
  Runs-fetched success column = Runs-pure Silent _ refl
  Runs-fetched no_data column = Runs-pure Silent _ refl
  Runs-fetched failed column = Runs-raise Silent _ tt

  pub Runs-fetch_i64 : Runs IsAny Silent (fetch_i64 odbc)
  unfolding fetch_i64
  Runs-fetch_i64 =
      Runs-then Silent (call odbc fetch_call) _ (Runs-quiet fetch_call (λ r t. refl)) (λ r.
        Runs-then Silent (call odbc close_cursor) _ (Runs-quiet close_cursor (λ r t. refl))
          (λ c. Runs-fetched r.rc r.column))
