-- ===== src/Database/Statements.antt =====
-- The statements that Db::record_scan of src/db_odbc.cpp runs.
use nano_sensor.Base.{ℕ, ◌+◌, ◌≡◌, refl, Bool, true, false, List, [], ◌∷◌, ◌++◌}
use nano_sensor.Base.Int.{ℤ}
use nano_sensor.Text.{codes}
use nano_sensor.Inventory.{Inventory, HostInfo, Package}
use nano_sensor.Cve.Match.{Finding}
use nano_sensor.Database.Session.{
  i64, update_host, insert_host, insert_scan, insert_package, insert_finding, update_latest, pure,
  ◌>>◌, Fetched, no_row, null_row, row, Odbc, prepare, execute, fetch_i64,
}
use nano_sensor.Database.Engine.{tables}
use nano_sensor.Database.Recording.{
  update_host_params, insert_host_params, scan_params, package_params, finding_params, required,
  set_scan_id, add_host, host_or_add, write_host, write_scan, package_loop, finding_loop,
  write_latest, write_rows,
}
use nano_sensor.Database.Runs.{
  Rows, IsShown, IsAny, Runs, Silent, Runs-pure, Runs-raise, Runs-bind, Runs-then, Runs-before,
  Runs-imply, Adds-nothing, Runs-labelled,
}
use nano_sensor.Database.Calls.{Runs-prepare, Runs-execute, Runs-fetch_i64}

-- The statements on the host: an update, and an insert where the update gave no row.
abbrev pub host_rows : HostInfo → Bool → Rows
host_rows h true = (update_host, update_host_params h) ∷ []
host_rows h false = (update_host, update_host_params h) ∷ (insert_host, insert_host_params h) ∷ []

-- One statement for each package, numbered from n on.
abbrev pub package_rows : ℤ → ℕ → List Package → Rows
package_rows scan n [] = []
package_rows scan n (pkg ∷ rest) =
    (insert_package, package_params scan n pkg) ∷ package_rows scan (n + 1) rest

abbrev pub finding_rows : ℤ → List Finding → Rows
finding_rows scan [] = []
finding_rows scan (x ∷ rest) = (insert_finding, finding_params scan x) ∷ finding_rows scan rest

abbrev pub behind_packages : List Finding → ℤ → ℤ → Rows
behind_packages findings scan host =
    finding_rows scan findings ++ ((update_latest, i64 scan ∷ i64 host ∷ []) ∷ [])

abbrev pub behind_host : Inventory → List Finding → ℤ → ℤ → Rows
behind_host inv findings scan host =
    (insert_scan, scan_params host inv findings)
    ∷ (package_rows scan 0 inv.packages ++ behind_packages findings scan host)

-- The statements of a whole scan.
abbrev pub scan_rows : Inventory → List Finding → ℤ → ℤ → Bool → Rows
scan_rows inv findings scan host found =
    host_rows inv.host found ++ behind_host inv findings scan host

module _ (odbc : Odbc) where
  Runs-required : (found : Fetched) → Runs IsAny Silent (required found)
  Runs-required no_row = Runs-raise Silent _ tt
  Runs-required null_row = Runs-raise Silent _ tt
  Runs-required (row id) = Runs-pure Silent id refl

  Runs-set_scan_id : (found : Fetched) → Runs IsAny Silent (set_scan_id found)
  Runs-set_scan_id no_row = record {
    at = λ t0 l off. ([], Adds-nothing (tables t0 l.calls) off, refl);
  }
  Runs-set_scan_id null_row = record {
    at = λ t0 l off. ([], Adds-nothing (tables t0 l.calls) off, refl);
  }
  Runs-set_scan_id (row id) = record {
    at = λ t0 l off. ([], Adds-nothing (tables t0 l.calls) off, refl);
  }

  -- A statement and the row that it has to give.
  Runs-add_host :
      (h : HostInfo)
      → Runs IsShown (λ id rows. rows ≡ (insert_host, insert_host_params h) ∷ []) (add_host odbc h)
  unfolding add_host
  Runs-add_host h = Runs-then _ (prepare odbc insert_host) _ (Runs-prepare odbc insert_host) (λ u.
      Runs-labelled _ (codes "host insert: ") _ (λ e. tt)
        (Runs-before _ (execute odbc insert_host (insert_host_params h)) _
          (Runs-execute odbc insert_host (insert_host_params h))
          (λ x. Runs-then Silent (fetch_i64 odbc) _ (Runs-fetch_i64 odbc) Runs-required)))

  Runs-host_or_add :
      (h : HostInfo) (found : Fetched)
      → Runs IsShown
          (λ id v.
            (known : Bool) × (((update_host, update_host_params h) ∷ []) ++ v ≡ host_rows h known))
          (host_or_add odbc h found)
  Runs-host_or_add h (row id) = Runs-pure _ id (true, refl)
  Runs-host_or_add h no_row = Runs-imply _ _ (λ id v e. (false, rw e)) (Runs-add_host h)
  Runs-host_or_add h null_row = Runs-imply _ _ (λ id v e. (false, rw e)) (Runs-add_host h)

  Runs-write_host :
      (h : HostInfo)
      → Runs IsShown (λ id rows. (known : Bool) × (rows ≡ host_rows h known)) (write_host odbc h)
  unfolding write_host
  Runs-write_host h = Runs-then _ (prepare odbc update_host) _ (Runs-prepare odbc update_host) (λ u.
      Runs-bind _ _ _ _ (host_or_add odbc h)
        (Runs-labelled _ (codes "host update: ") _ (λ e. tt)
          (Runs-before _ (execute odbc update_host (update_host_params h)) _
            (Runs-execute odbc update_host (update_host_params h)) (λ x. Runs-fetch_i64 odbc)))
        (Runs-host_or_add h) (λ a b u v e k. (k.0, rw e k.1)))

  Runs-write_scan :
      (host : ℤ) (inv : Inventory) (findings : List Finding)
      → Runs IsShown
          (λ id rows. rows ≡ (insert_scan, scan_params host inv findings) ∷ [])
          (write_scan odbc host inv findings)
  unfolding write_scan
  Runs-write_scan host inv findings =
      Runs-then _ (prepare odbc insert_scan) _ (Runs-prepare odbc insert_scan) (λ u.
        Runs-labelled _ (codes "scan insert: ") _ (λ e. tt)
          (Runs-before _ (execute odbc insert_scan (scan_params host inv findings)) _
            (Runs-execute odbc insert_scan (scan_params host inv findings))
            (λ x. Runs-then Silent (fetch_i64 odbc) _ (Runs-fetch_i64 odbc) (λ found.
              Runs-then Silent (set_scan_id found) _ (Runs-set_scan_id found)
                (λ y. Runs-required found)))))

  Runs-package_loop :
      (scan : ℤ) (n : ℕ) (packages : List Package)
      → Runs IsShown
          (λ u rows. rows ≡ package_rows scan n packages)
          (package_loop odbc scan n packages)
  unfolding package_loop
  Runs-package_loop scan n [] = Runs-pure _ tt refl
  Runs-package_loop scan n (pkg ∷ rest) =
      Runs-bind _ (λ u x rows. rows ≡ package_rows scan (n + 1) rest) _ _ _
        (Runs-labelled _ (codes "package insert: ") _ (λ e. tt)
          (Runs-execute odbc insert_package (package_params scan n pkg)))
        (λ u. Runs-package_loop scan (n + 1) rest) (λ a b u v e k. rw (e, k))

  Runs-finding_loop :
      (scan : ℤ) (findings : List Finding)
      → Runs IsShown (λ u rows. rows ≡ finding_rows scan findings) (finding_loop odbc scan findings)
  unfolding finding_loop
  Runs-finding_loop scan [] = Runs-pure _ tt refl
  Runs-finding_loop scan (x ∷ rest) =
      Runs-bind _ (λ u x rows. rows ≡ finding_rows scan rest) _ _ _
        (Runs-labelled _ (codes "finding insert: ") _ (λ e. tt)
          (Runs-execute odbc insert_finding (finding_params scan x)))
        (λ u. Runs-finding_loop scan rest) (λ a b u v e k. rw (e, k))

  Runs-write_latest :
      (scan host : ℤ)
      → Runs IsShown
          (λ u rows. rows ≡ (update_latest, i64 scan ∷ i64 host ∷ []) ∷ [])
          (write_latest odbc scan host)
  unfolding write_latest
  Runs-write_latest scan host =
      Runs-then _ (prepare odbc update_latest) _ (Runs-prepare odbc update_latest) (λ u.
        Runs-labelled _ (codes "latest_scan_id: ") _ (λ e. tt)
          (Runs-execute odbc update_latest (i64 scan ∷ i64 host ∷ [])))

  -- What follows the rows of the packages.
  Runs-findings :
      (scan host : ℤ) (findings : List Finding)
      → Runs IsShown
          (λ id v.
            (id ≡ scan)
            × (v ≡ finding_rows scan findings ++ ((update_latest, i64 scan ∷ i64 host ∷ []) ∷ [])))
          (do
            prepare odbc insert_finding
            finding_loop odbc scan findings
            write_latest odbc scan host
            pure scan)
  Runs-findings scan host findings =
      Runs-then _ (prepare odbc insert_finding) _ (Runs-prepare odbc insert_finding) (λ u.
        Runs-bind _ (λ x id v. (id ≡ scan) × (v ≡ (update_latest, i64 scan ∷ i64 host ∷ []) ∷ [])) _
          _ _ (Runs-finding_loop scan findings)
          (λ x.
            Runs-bind _ (λ y id v. (id ≡ scan) × (v ≡ [])) _ _ _ (Runs-write_latest scan host)
              (λ y. Runs-pure _ scan (refl, refl)) (λ a b u v e k. (k.0, rw (e, k.1))))
          (λ a b u v e k. (k.0, rw (e, k.1))))

  pub Runs-write_rows :
      (inv : Inventory) (findings : List Finding)
      → Runs IsShown
          (λ scan rows.
            (host : ℤ) × (known : Bool) × (rows ≡ scan_rows inv findings scan host known))
          (write_rows odbc inv findings)
  unfolding write_rows
  Runs-write_rows inv findings =
      Runs-bind _ (λ host scan v. v ≡ behind_host inv findings scan host) _ _ _
        (Runs-write_host inv.host)
        (λ host.
          Runs-bind _
            (λ scan id v.
              (id ≡ scan)
              × (v ≡ package_rows scan 0 inv.packages ++ behind_packages findings scan host))
            _ _ _ (Runs-write_scan host inv findings)
            (λ scan.
              Runs-then _ (prepare odbc insert_package) _ (Runs-prepare odbc insert_package) (λ u.
                Runs-bind _ (λ x id v. (id ≡ scan) × (v ≡ behind_packages findings scan host)) _ _ _
                  (Runs-package_loop scan 0 inv.packages) (λ x. Runs-findings scan host findings)
                  (λ a b u v e k. (k.0, rw (e, k.1)))))
            (λ a b u v e k. rw (k.0, e, k.1)))
        (λ host scan u v e k. (host, e.0, rw (e.1, k)))
