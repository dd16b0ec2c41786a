-- ===== src/Database/Session.antt =====
-- Statements of src/db_odbc.cpp: prepare, execute and fetch over the calls of ODBC.
use nano_sensor.Base.{ℕ, suc, Bool, true, false, Option, none, some, List, [], ◌∷◌, ◌++◌}
use nano_sensor.Base.Int.{ℤ}
use nano_sensor.Text.{Bytes, codes}

-- The value in a parameter slot, with the kind that it is bound as: a text has the size of its
-- column, a time the milliseconds since 1970 that set_unix_ms splits.
pub data Param : Type 0 where
  wstr str : Bytes → ℕ → Param
  i64 : ℤ → Param
  dbl : ℕ → Param
  bit : Bool → Param
  ts : ℤ → Param

-- The statements of record_scan, host_findings and hosts_affected.
pub data Statement : Type 0 where
  update_host insert_host insert_scan insert_package insert_finding update_latest : Statement
  select_host select_cve : Statement

abbrev pub row_columns : Bytes
row_columns =
    codes
      "h.hostname, f.cve_id, f.package_name, f.package_version, CAST(f.cvss AS float), f.severity, f.exposed, f.scan_id "

unfoldable pub sql_of : Statement → Bytes
sql_of update_host =
    codes
      "UPDATE dbo.hosts SET os_name = ?, os_version = ?, last_seen = SYSUTCDATETIME() OUTPUT INSERTED.host_id WHERE hostname = ?"
sql_of insert_host =
    codes
      "INSERT dbo.hosts (hostname, os_name, os_version, last_seen) OUTPUT INSERTED.host_id VALUES (?, ?, ?, SYSUTCDATETIME())"
sql_of insert_scan =
    codes
      "INSERT dbo.scans (host_id, collected_at, agent_version, package_count, finding_count) OUTPUT INSERTED.scan_id VALUES (?, ?, ?, ?, ?)"
sql_of insert_package =
    codes
      "INSERT dbo.packages (scan_id, package_id, name, version, vendor, source) VALUES (?, ?, ?, ?, ?, ?)"
sql_of insert_finding =
    codes
      "INSERT dbo.findings (scan_id, cve_id, package_name, package_version, cvss, severity, exposed) VALUES (?, ?, ?, ?, ?, ?, ?)"
sql_of update_latest = codes "UPDATE dbo.hosts SET latest_scan_id = ? WHERE host_id = ?"
sql_of select_host =
    codes "SELECT TOP (?) "
    ++ row_columns
    ++ codes
        "FROM dbo.hosts h JOIN dbo.findings f ON f.scan_id = h.latest_scan_id WHERE h.hostname = ? AND f.cvss >= ? ORDER BY f.cvss DESC, f.cve_id"
sql_of select_cve =
    codes "SELECT "
    ++ row_columns
    ++ codes
        "FROM dbo.findings f JOIN dbo.hosts h ON h.latest_scan_id = f.scan_id WHERE f.cve_id = ? ORDER BY h.hostname"

-- A statement is named by its constructor; `sql_of` has its text.
pub data Call : Type 0 where
  set_autocommit : Bool → Call
  prepare_call : Statement → Call
  bind_call : ℕ → Param → Call
  execute_call : Statement → List Param → Call
  fetch_call close_cursor : Call
  -- SQL_COMMIT or SQL_ROLLBACK
  end_tran : Bool → Call

pub data Return : Type 0 where
  success no_data failed : Return

-- What a call returns, the diagnostic text of its handle, and the first column of a row that was
-- fetched: none is NULL.
pub record Reply : Type 0 where
  pub rc : Return
  pub diag : Bytes
  pub column : Option ℤ

-- ok(rc)
abbrev pub is_ok : Return → Bool
is_ok success = true
is_ok no_data = false
is_ok failed = false

-- The calls so far with their replies, the newest first, and the out parameter scan_id.
pub record Link : Type 0 where
  pub calls : List (Call × Reply)
  pub scan_id : ℤ

pub data Result (A : Type 0) : Type 0 where
  ok : A → Result A
  err : Bytes → Result A

abbrev pub Action : Type 0 → Type 0
Action A = Link → Result A × Link

abbrev pub pure : {A : Type 0} → A → Action A
pure a l = (ok a, l)

abbrev pub raise : {A : Type 0} → Bytes → Action A
raise e l = (err e, l)

abbrev pub continue : {A B : Type 0} → Result A → (A → Action B) → Action B
continue (ok a) f l = f a l
continue (err e) f l = (err e, l)

infixl 5 ◌>>=◌ ◌>>◌
abbrev pub ◌>>=◌ : {A B : Type 0} → Action A → (A → Action B) → Action B
◌>>=◌ m f l = let (r, l') = m l in continue r f l'

abbrev pub ◌>>◌ : {B : Type 0} → Action (Unit {0}) → Action B → Action B
m >> k = m >>= λ _. k

abbrev pub relabel : {A : Type 0} → Bytes → Result A → Result A
relabel what (ok a) = ok a
relabel what (err e) = err (what ++ e)

-- What stands before the error in `fail(what + err)`.
abbrev pub labelled : {A : Type 0} → Bytes → Action A → Action A
labelled what m l = let (r, l') = m l in (relabel what r, l')

-- What SQLFetch brought: no row, a row with NULL, or a row.
pub data Fetched : Type 0 where
  no_row null_row : Fetched
  row : ℤ → Fetched

abbrev pub row_of : Option ℤ → Fetched
row_of none = null_row
row_of (some v) = row v

-- An error text where the call was not ok.
abbrev pub check_ok : Bytes → Return → Bytes → Action (Unit {0})
check_ok what success diag = pure tt
check_ok what no_data diag = raise (what ++ diag)
check_ok what failed diag = raise (what ++ diag)

-- An UPDATE that matched nothing is no error.
abbrev pub executed : Return → Bytes → Action (Unit {0})
executed success diag = pure tt
executed no_data diag = pure tt
executed failed diag = raise diag

abbrev pub fetched : Return → Option ℤ → Action Fetched
fetched success column = pure (row_of column)
fetched no_data column = pure no_row
fetched failed column = raise []

abbrev pub Odbc : Type 0
Odbc = List (Call × Reply) → Call → Reply

module _ (odbc : Odbc) where
  abbrev pub call : Call → Action Reply
  call c l =
      let r = odbc l.calls c in (ok r, record { calls = (c, r) ∷ l.calls; scan_id = l.scan_id })

  unfoldable pub prepare : Statement → Action (Unit {0})
  prepare s = do r ← call (prepare_call s); check_ok (codes "prepare: ") r.rc r.diag

  -- The slots from number i on.
  unfoldable pub bind_slots : ℕ → List Param → Action (Unit {0})
  bind_slots i [] = pure tt
  bind_slots i (p ∷ ps) = do
    r ← call (bind_call i p)
    check_ok (codes "bind: ") r.rc r.diag
    bind_slots (suc i) ps

  unfoldable pub execute : Statement → List Param → Action (Unit {0})
  execute s ps = do bind_slots 1 ps; r ← call (execute_call s ps); executed r.rc r.diag

  -- A fetch that fails leaves the error text empty.
  unfoldable pub fetch_i64 : Action Fetched
  fetch_i64 = do r ← call fetch_call; c ← call close_cursor; fetched r.rc r.column
