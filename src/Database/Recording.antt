-- ===== src/Database/Recording.antt =====
-- Db::record_scan of src/db_odbc.cpp.
use nano_sensor.Base.{ℕ, ◌+◌, Bool, true, false, List, [], ◌∷◌, ◌++◌, if◌then◌else◌, length, take}
use nano_sensor.Base.Int.{ℤ, pos}
use nano_sensor.Text.{Bytes, codes}
use nano_sensor.Inventory.{Inventory, HostInfo, Package, agent_version}
use nano_sensor.Cve.Names.{is_empty}
use nano_sensor.Cve.Match.{Finding}
use nano_sensor.Database.Session.{
  Param, wstr, str, i64, dbl, bit, ts, update_host, insert_host, insert_scan, insert_package,
  insert_finding, update_latest, set_autocommit, end_tran, Return, success, no_data, failed, Result,
  ok, err, Action, pure, raise, ◌>>=◌, ◌>>◌, labelled, Fetched, no_row, null_row, row, Odbc, call,
  prepare, execute, fetch_i64,
}

abbrev pub update_host_params : HostInfo → List Param
update_host_params h = wstr h.os_name 128 ∷ wstr h.os_version 64 ∷ wstr h.hostname 255 ∷ []

abbrev pub insert_host_params : HostInfo → List Param
insert_host_params h = wstr h.hostname 255 ∷ wstr h.os_name 128 ∷ wstr h.os_version 64 ∷ []

abbrev pub scan_params : ℤ → Inventory → List Finding → List Param
scan_params host inv findings =
    i64 host
    ∷ ts inv.collected_at_unix_ms
    ∷ str agent_version 32
    ∷ i64 (pos (length inv.packages))
    ∷ i64 (pos (length findings))
    ∷ []

abbrev pub package_params : ℤ → ℕ → Package → List Param
package_params scan ordinal pkg =
    i64 scan
    ∷ i64 (pos ordinal)
    ∷ wstr (take 400 pkg.name) 400
    ∷ wstr (take 128 pkg.version) 128
    ∷ wstr (take 256 pkg.vendor) 256
    ∷ str (take 32 pkg.source) 32
    ∷ []

abbrev pub finding_params : ℤ → Finding → List Param
finding_params scan x =
    i64 scan
    ∷ str x.cve_id 32
    ∷ wstr (take 400 x.package_name) 400
    ∷ wstr (take 128 x.package_version) 128
    ∷ dbl x.cvss_score
    ∷ str (if is_empty x.cvss_severity then codes "NONE" else x.cvss_severity) 10
    ∷ bit x.network_exposed
    ∷ []

-- The row of a statement that has to give one.
abbrev pub required : Fetched → Action ℤ
required no_row = raise []
required null_row = raise []
required (row id) = pure id

-- The out parameter takes the value of a row, 0 for NULL.
abbrev pub set_scan_id : Fetched → Action (Unit {0})
set_scan_id no_row l = (ok tt, l)
set_scan_id null_row l = (ok tt, record l { scan_id = pos 0 })
set_scan_id (row id) l = (ok tt, record l { scan_id = id })

module _ (odbc : Odbc) where
  unfoldable pub add_host : HostInfo → Action ℤ
  add_host h = do
    prepare odbc insert_host
    labelled (codes "host insert: ")
        (do execute odbc insert_host (insert_host_params h); found ← fetch_i64 odbc; required found)

  abbrev pub host_or_add : HostInfo → Fetched → Action ℤ
  host_or_add h no_row = add_host h
  host_or_add h null_row = add_host h
  host_or_add h (row id) = pure id

  -- Update, then insert; the id of the host.
  unfoldable pub write_host : HostInfo → Action ℤ
  write_host h = do
    prepare odbc update_host
    found ←
        labelled (codes "host update: ")
          (do execute odbc update_host (update_host_params h); fetch_i64 odbc)
    host_or_add h found

  unfoldable pub write_scan : ℤ → Inventory → List Finding → Action ℤ
  write_scan host inv findings = do
    prepare odbc insert_scan
    labelled (codes "scan insert: ") (do
      execute odbc insert_scan (scan_params host inv findings)
      found ← fetch_i64 odbc
      set_scan_id found
      required found)

  unfoldable pub package_loop : ℤ → ℕ → List Package → Action (Unit {0})
  package_loop scan ordinal [] = pure tt
  package_loop scan ordinal (pkg ∷ rest) = do
    labelled (codes "package insert: ")
        (execute odbc insert_package (package_params scan ordinal pkg))
    package_loop scan (ordinal + 1) rest

  unfoldable pub finding_loop : ℤ → List Finding → Action (Unit {0})
  finding_loop scan [] = pure tt
  finding_loop scan (x ∷ rest) = do
    labelled (codes "finding insert: ") (execute odbc insert_finding (finding_params scan x))
    finding_loop scan rest

  unfoldable pub write_latest : ℤ → ℤ → Action (Unit {0})
  write_latest scan host = do
    prepare odbc update_latest
    labelled (codes "latest_scan_id: ") (execute odbc update_latest (i64 scan ∷ i64 host ∷ []))

  -- The statements between set_autocommit and SQLEndTran; the scan id.
  unfoldable pub write_rows : Inventory → List Finding → Action ℤ
  write_rows inv findings = do
    host ← write_host inv.host
    scan ← write_scan host inv findings
    prepare odbc insert_package
    package_loop scan 0 inv.packages
    prepare odbc insert_finding
    finding_loop scan findings
    write_latest scan host
    pure scan

  unfoldable pub fail : {A : Type 0} → Bytes → Action A
  fail what = do r ← call odbc (end_tran false); a ← call odbc (set_autocommit true); raise what

  abbrev pub committed : Return → Bytes → ℤ → Action ℤ
  committed success diag scan = do a ← call odbc (set_autocommit true); pure scan
  committed no_data diag scan = fail (codes "commit: " ++ diag)
  committed failed diag scan = fail (codes "commit: " ++ diag)

  unfoldable pub finish : Result ℤ → Action ℤ
  finish (ok scan) = do r ← call odbc (end_tran true); committed r.rc r.diag scan
  finish (err what) = fail what

  unfoldable pub record_scan : Bool → Inventory → List Finding → Action ℤ
  record_scan false inv findings l = (err (codes "not connected"), l)
  record_scan true inv findings l =
      let (a, l1) = call odbc (set_autocommit false) l in
      let (r, l2) = write_rows inv findings l1 in finish r l2
