-- ===== src/Cve/Match.antt =====
-- match_package of src/cve.cpp.
use nano_sensor.Base.{
  ℕ, Bool, true, false, not, ◌&&◌, ◌||◌, Option, none, some, List, [], ◌∷◌, ltb, if◌then◌else◌,
}
use nano_sensor.Base.Int.{is_nonzero}
use nano_sensor.Text.{Bytes, codes, bytes_eq}
use nano_sensor.Vercmp.{version_compare, version_in_range, version_upstream_part}
use nano_sensor.Inventory.{Package}
use nano_sensor.Cve.Names.{is_empty, severity_bucket}
use nano_sensor.Cve.Index.{CveRule, CveIndex, lookup, product_key, resolve}

pub record Finding : Type 0 where
  pub cve_id : Bytes
  pub package_name : Bytes
  pub package_version : Bytes
  pub matched_version : Bytes
  pub vendor : Bytes
  pub product : Bytes
  pub cvss_score : ℕ
  pub cvss_severity : Bytes
  pub cvss_version : Bytes
  pub network_exposed : Bool

unfoldable pub has_range : CveRule → Bool
has_range r =
    not (is_empty r.start_incl)
    || (not (is_empty r.start_excl) || (not (is_empty r.end_incl) || not (is_empty r.end_excl)))

-- Whether a rule names the version v.
unfoldable pub is_hit : Bytes → CveRule → Bool
is_hit v r =
    if not (bytes_eq r.version (codes "*"))
      && (not (bytes_eq r.version (codes "-")) && not (is_empty r.version))
    then not (is_nonzero (version_compare v r.version))
    else if has_range r
    then version_in_range v r.start_incl r.start_excl r.end_incl r.end_excl
    else true

abbrev pub finding_of : Package → Bytes → Bytes × Bytes → CveRule → Finding
finding_of pkg v target r = record {
  cve_id = r.cve_id;
  package_name = pkg.name;
  package_version = pkg.version;
  matched_version = v;
  vendor = target.0;
  product = target.1;
  cvss_score = r.cvss_score;
  cvss_severity = severity_bucket r.cvss_severity r.cvss_score;
  cvss_version = r.cvss_version;
  network_exposed = false;
}

-- best.find(id)
unfoldable pub find_best : Bytes → List Finding → Option Finding
find_best id [] = none
find_best id (f ∷ fs) = let rest = find_best id fs in if bytes_eq id f.cve_id then some f else rest

-- best[fnd.cve_id] = fnd
unfoldable pub put_best : Finding → List Finding → List Finding
put_best fnd [] = fnd ∷ []
put_best fnd (f ∷ fs) =
    let rest = put_best fnd fs in if bytes_eq fnd.cve_id f.cve_id then fnd ∷ fs else f ∷ rest

unfoldable pub keep_best : Finding → List Finding → List Finding
keep_best fnd best = elim (find_best fnd.cve_id best) [
  | none ↦ put_best fnd best
  | some existing ↦ if ltb existing.cvss_score fnd.cvss_score then put_best fnd best else best
]

unfoldable pub best_loop :
    Package → Bytes → Bytes × Bytes → List CveRule → List Finding → List Finding
best_loop pkg v target [] best = best
best_loop pkg v target (r ∷ rs) best =
    let missed = best_loop pkg v target rs best in
    let kept = best_loop pkg v target rs (keep_best (finding_of pkg v target r) best) in
    if is_hit v r then kept else missed

-- The findings, in the order in which their CVEs were met; that of an unordered_map is open.
unfoldable pub match_target : CveIndex → Package → Bytes × Bytes → List Finding
match_target x pkg target =
    let v = version_upstream_part pkg.version in
    elim (lookup (product_key target.0 target.1) x.by_product) [
      | none ↦ []
      | some rules ↦ if is_empty v then [] else best_loop pkg v target rules []
    ]

unfoldable pub match_package : CveIndex → Package → List Finding
match_package x pkg = elim (resolve x pkg.name) [
  | none ↦ []
  | some target ↦ if is_empty pkg.version then [] else match_target x pkg target
]
