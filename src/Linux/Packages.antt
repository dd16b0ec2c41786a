-- ===== src/Linux/Packages.antt =====
-- collect_packages of src/platform/platform_linux.cpp.
use nano_sensor.Base.{
  ℕ, Bool, true, false, not, ◌||◌, Option, none, some, List, [], ◌∷◌, ◌++◌, if◌then◌else◌, drop,
}
use nano_sensor.Base.Int.{ℤ, is_nonzero}
use nano_sensor.Text.{Bytes, codes, bytes_eq, bytes_lt, take_while, drop_while}
use nano_sensor.Json.{print_i64}
use nano_sensor.Cve.Names.{is_empty, trim}
use nano_sensor.Inventory.{Status, Package}
use nano_sensor.Report.Records.{not_byte}

-- The part up to a delimiter, and what follows it.
abbrev pub part : ℕ → Bytes → Bytes × Bytes
part c text = (take_while (not_byte c) text, drop 1 (drop_while (not_byte c) text))

-- A line of the query; none where the loop goes on to the next.
unfoldable pub package_of_query : Bytes → Bytes → Option Package
package_of_query source line =
    let (status, rest) = part 9 line in
    let (pkg, rest') = part 9 rest in
    let (version, rest'') = part 9 rest' in
    let (vendor, end) = part 10 rest'' in
    if not (bytes_eq (trim status) (codes "installed")) || is_empty pkg
    then none
    else some
        (record { name = trim pkg; version = trim version; vendor = trim vendor; source = source })

unfoldable pub query_lines : Bytes → List Bytes → List Package
query_lines source [] = []
query_lines source (line ∷ lines) =
    let rest = query_lines source lines in
    elim (package_of_query source line) [ none ↦ rest | some p ↦ p ∷ rest ]

-- std::sort by the name, which leaves the order of equal names open; here they keep theirs.
unfoldable pub insert_package : Package → List Package → List Package
insert_package p [] = p ∷ []
insert_package p (q ∷ qs) =
    let rest = insert_package p qs in if bytes_lt q.name p.name then q ∷ rest else p ∷ q ∷ qs

unfoldable pub sort_packages : List Package → List Package
sort_packages [] = []
sort_packages (p ∷ ps) = insert_package p (sort_packages ps)

-- A query that popen started: the pieces of at most 4095 bytes that fgets reads, and its status.
pub data Query : Type 0 where
  not_started : Bytes → Query
  ran : List Bytes → ℤ → Query

abbrev pub no_list {ℓ} : {A : Type ℓ} → List A → Bool
no_list [] = true
no_list (a ∷ rest) = false

abbrev pub query_result : Bytes → Query → Status × List Package
query_result source (not_started error) = (
  record {
    implemented = true;
    warnings = (codes "popen failed for " ++ (source ++ (codes ": " ++ error))) ∷ [];
  },
  [],
)
query_result source (ran lines rc) =
    let out = query_lines source lines in
    let failed = (source ++ (codes " query exited with status " ++ print_i64 rc)) ∷ [] in
    let nothing = codes "package query returned nothing" ∷ [] in
    (
      record {
        implemented = true;
        warnings = (if is_nonzero rc then failed else []) ++ (if no_list out then nothing else []);
      },
      sort_packages out,
    )

-- Whether there is a database of dpkg and one of rpm, and their queries.
unfoldable pub collect_packages : Bool → Bool → Query → Query → Status × List Package
collect_packages have_dpkg have_rpm dpkg rpm =
    if have_dpkg
    then query_result (codes "dpkg") dpkg
    else if have_rpm
    then query_result (codes "rpm") rpm
    else (
      record {
        implemented = false;
        warnings = codes "no dpkg or rpm database found; installed software not collected" ∷ [];
      },
      [],
    )
