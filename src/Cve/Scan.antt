-- ===== src/Cve/Scan.antt =====
-- scan of src/cve.cpp over an inventory.
use nano_sensor.Base.{
  ℕ, ◌+◌, Bool, not, ◌||◌, none, some, List, [], ◌∷◌, ◌++◌, ltb, ◌==◌, if◌then◌else◌, length, map,
}
use nano_sensor.Text.{Bytes, codes, bytes_eq, bytes_lt}
use nano_sensor.Inventory.{ListeningSocket, Package}
use nano_sensor.Cve.Names.{is_empty, member}
use nano_sensor.Cve.Index.{CveIndex, product_key, resolve}
use nano_sensor.Cve.Match.{Finding, match_package}

pub record ScanSummary : Type 0 where
  pub packages_total : ℕ
  pub packages_mapped : ℕ
  pub packages_unmapped : ℕ
  pub packages_no_version : ℕ
  pub findings : ℕ
  pub critical : ℕ
  pub high : ℕ
  pub medium : ℕ
  pub low : ℕ
  pub exposed_findings : ℕ
  pub unmapped_names : List Bytes

-- The products that own a world-reachable socket. A std::set is a list here: it is only asked
-- whether it has a product.
unfoldable pub exposed_products : CveIndex → List ListeningSocket → List Bytes
exposed_products x [] = []
exposed_products x (s ∷ ss) =
    let rest = exposed_products x ss in
    let found : List Bytes = elim (resolve x s.process_name) [
      | none ↦ rest
      | some target ↦ product_key target.0 target.1 ∷ rest
    ] in
    if not s.world_reachable || is_empty s.process_name then rest else found

abbrev pub expose : Bool → Finding → Finding
expose exposed f = record f { network_exposed = exposed }

abbrev pub count_unmapped : Bytes → ScanSummary → ScanSummary
count_unmapped name t = record t {
  packages_unmapped = t.packages_unmapped + 1;
  unmapped_names =
      if ltb (length t.unmapped_names) 50
      then t.unmapped_names ++ (name ∷ [])
      else t.unmapped_names;
}

abbrev pub count_mapped : ScanSummary → ScanSummary
count_mapped t = record t { packages_mapped = t.packages_mapped + 1 }

abbrev pub count_no_version : ScanSummary → ScanSummary
count_no_version t = record t { packages_no_version = t.packages_no_version + 1 }

-- One package: the findings that it adds, and the summary.
unfoldable pub scan_package :
    CveIndex → List Bytes → Package → ScanSummary → List Finding × ScanSummary
scan_package x exposed pkg t = elim (resolve x pkg.name) [
  | none ↦ ([], count_unmapped pkg.name t)
  | some target ↦
      let matched : List Finding × ScanSummary = (
        map (expose (member (product_key target.0 target.1) exposed)) (match_package x pkg),
        count_mapped t,
      ) in
      if is_empty pkg.version then ([], count_no_version (count_mapped t)) else matched
]

unfoldable pub scan_loop :
    CveIndex → List Bytes → List Package → ScanSummary → List Finding × ScanSummary
scan_loop x exposed [] t = ([], t)
scan_loop x exposed (pkg ∷ pkgs) t =
    let (found, t') = scan_package x exposed pkg t in
    let (all, t'') = scan_loop x exposed pkgs t' in (found ++ all, t'')

-- The order of the report: by score, then by id, both descending.
abbrev pub before : Finding → Finding → Bool
before a b =
    if not (a.cvss_score == b.cvss_score)
    then ltb b.cvss_score a.cvss_score
    else bytes_lt b.cve_id a.cve_id

-- std::sort, which leaves the order of findings open that are equal in it.
unfoldable pub insert_finding : Finding → List Finding → List Finding
insert_finding f [] = f ∷ []
insert_finding f (g ∷ gs) =
    let rest = insert_finding f gs in if before g f then g ∷ rest else f ∷ g ∷ gs

unfoldable pub sort_findings : List Finding → List Finding
sort_findings [] = []
sort_findings (f ∷ fs) = insert_finding f (sort_findings fs)

-- The counters of one finding.
abbrev pub count_severity : Finding → ScanSummary → ScanSummary
count_severity f t =
    if bytes_eq f.cvss_severity (codes "critical")
    then record t { critical = t.critical + 1 }
    else if bytes_eq f.cvss_severity (codes "high")
    then record t { high = t.high + 1 }
    else if bytes_eq f.cvss_severity (codes "medium")
    then record t { medium = t.medium + 1 }
    else if bytes_eq f.cvss_severity (codes "low")
    then record t { low = t.low + 1 }
    else t

abbrev pub count_exposed : Finding → ScanSummary → ScanSummary
count_exposed f t =
    if f.network_exposed then record t { exposed_findings = t.exposed_findings + 1 } else t

unfoldable pub count_loop : List Finding → ScanSummary → ScanSummary
count_loop [] t = t
count_loop (f ∷ fs) t = count_loop fs (count_exposed f (count_severity f t))

unfoldable pub scan :
    CveIndex → List ListeningSocket → List Package → ScanSummary → List Finding × ScanSummary
scan x sockets packages t =
    let total : ScanSummary = record t { packages_total = length packages } in
    let (found, t') = scan_loop x (exposed_products x sockets) packages total in
    let all = sort_findings found in
    let counted : ScanSummary = record t' { findings = length all } in (all, count_loop all counted)
