-- ===== src/Database/Engine.antt =====
-- What the calls of src/db_odbc.cpp do to the tables, as ODBC documents it: a statement takes
-- effect at once under autocommit, and with the commit of its transaction otherwise.
use nano_sensor.Base.{Bool, true, false, List, [], ◌∷◌, ◌++◌, if◌then◌else◌}
use nano_sensor.Database.Session.{
  Param, Statement, Call, set_autocommit, prepare_call, bind_call, execute_call, fetch_call,
  close_cursor, end_tran, Return, success, no_data, failed, Reply, is_ok,
}

-- The statements that took effect, the ones of the open transaction, and the mode.
pub record Tables : Type 0 where
  pub durable : List (Statement × List Param)
  pub pending : List (Statement × List Param)
  pub autocommit : Bool

abbrev pub run_statement : Statement → List Param → Return → Tables → Tables
run_statement s ps failed t = t
run_statement s ps success t =
    if t.autocommit
    then record t { durable = t.durable ++ ((s, ps) ∷ []) }
    else record t { pending = t.pending ++ ((s, ps) ∷ []) }
run_statement s ps no_data t =
    if t.autocommit
    then record t { durable = t.durable ++ ((s, ps) ∷ []) }
    else record t { pending = t.pending ++ ((s, ps) ∷ []) }

abbrev pub end_transaction : Bool → Tables → Tables
end_transaction true t = record t { durable = t.durable ++ t.pending; pending = [] }
end_transaction false t = record t { pending = [] }

-- Turning autocommit on commits what is open.
abbrev pub switch_mode : Bool → Tables → Tables
switch_mode true t = record { durable = t.durable ++ t.pending; pending = []; autocommit = true }
switch_mode false t = record t { autocommit = false }

-- A call that fails has no effect.
abbrev pub step : Call → Reply → Tables → Tables
step (set_autocommit on) r t = if is_ok r.rc then switch_mode on t else t
step (prepare_call s) r t = t
step (bind_call i p) r t = t
step (execute_call s ps) r t = run_statement s ps r.rc t
step fetch_call r t = t
step close_cursor r t = t
step (end_tran commit) r t = if is_ok r.rc then end_transaction commit t else t

-- The tables behind the calls, newest first, on tables that stood before them.
abbrev pub tables : Tables → List (Call × Reply) → Tables
tables t [] = t
tables t ((c, r) ∷ calls) = step c r (tables t calls)
