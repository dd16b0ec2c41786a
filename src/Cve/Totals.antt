-- ===== src/Cve/Totals.antt =====
-- The totals and the order of the report of src/cve.cpp.
use nano_sensor.Text.Order.{bytes_lt-le}
use nano_sensor.Base.{
  ℕ, ◌+◌, ◌≤◌, ◌<◌, ◌⊎◌, ◌≡◌, true, false, Bool-cases, inl, inr, List, [], ◌∷◌, length, arith,
}
use nano_sensor.Text.{Bytes, bytes_lt}
use nano_sensor.Inventory.{ListeningSocket, Package}
use nano_sensor.Cve.Index.{CveIndex}
use nano_sensor.Cve.Match.{Finding}
use nano_sensor.Cve.Scan.{
  ScanSummary, exposed_products, scan_package, scan_loop, before, count_severity, count_exposed,
  insert_finding, sort_findings, count_loop, scan,
}

-- The packages that were counted, one way or the other.
abbrev seen : ScanSummary → ℕ
seen t = t.packages_mapped + t.packages_unmapped

abbrev rated : ScanSummary → ℕ
rated t = t.critical + t.high + t.medium + t.low

scan_package-seen :
    (x : CveIndex) (exposed : List Bytes) (pkg : Package) (t : ScanSummary)
    → (seen (scan_package x exposed pkg t).1 ≡ seen t + 1)
      × (rated (scan_package x exposed pkg t).1 ≡ rated t)
      × ((scan_package x exposed pkg t).1.packages_total ≡ t.packages_total)
      × ((scan_package x exposed pkg t).1.exposed_findings ≡ t.exposed_findings)
unfolding scan_package
scan_package-seen x exposed pkg t = ground arith

scan_loop-seen :
    (x : CveIndex) (exposed : List Bytes) (pkgs : List Package) (t : ScanSummary)
    → (seen (scan_loop x exposed pkgs t).1 ≡ seen t + length pkgs)
      × (rated (scan_loop x exposed pkgs t).1 ≡ rated t)
      × ((scan_loop x exposed pkgs t).1.packages_total ≡ t.packages_total)
      × ((scan_loop x exposed pkgs t).1.exposed_findings ≡ t.exposed_findings)
unfolding scan_loop
scan_loop-seen x exposed [] t = ground arith
scan_loop-seen x exposed (pkg ∷ pkgs) t = ground (
  arith,
  scan_package-seen x exposed pkg t,
  scan_loop-seen x exposed pkgs (scan_package x exposed pkg t).1,
)

one_counted :
    (f : Finding) (t : ScanSummary)
    → (seen (count_exposed f (count_severity f t)) ≡ seen t)
      × (rated (count_exposed f (count_severity f t)) ≤ rated t + 1)
      × ((count_exposed f (count_severity f t)).packages_total ≡ t.packages_total)
      × ((count_exposed f (count_severity f t)).findings ≡ t.findings)
      × ((count_exposed f (count_severity f t)).exposed_findings ≤ t.exposed_findings + 1)
one_counted f t = ground arith

count_loop-seen :
    (fs : List Finding) (t : ScanSummary)
    → (seen (count_loop fs t) ≡ seen t)
      × (rated (count_loop fs t) ≤ rated t + length fs)
      × ((count_loop fs t).packages_total ≡ t.packages_total)
      × ((count_loop fs t).findings ≡ t.findings)
      × ((count_loop fs t).exposed_findings ≤ t.exposed_findings + length fs)
unfolding count_loop
count_loop-seen [] t = ground arith
count_loop-seen (f ∷ fs) t =
    ground (arith, one_counted f t, count_loop-seen fs (count_exposed f (count_severity f t)))

-- The first of the list does not belong before g.
abbrev pub IsBehind : Finding → List Finding → Type 0
IsBehind g [] = Unit
IsBehind g (k ∷ gs) = before k g ≡ false

-- No finding stands right behind one that belongs behind it.
abbrev pub IsSorted : List Finding → Type 0
IsSorted [] = Unit
IsSorted (f ∷ fs) = IsBehind f fs × IsSorted fs

before_asym : (f g : Finding) → before g f ≡ true → before f g ≡ false
before_asym f g h = ground (arith, bytes_lt-le f.cve_id g.cve_id, bytes_lt-le g.cve_id f.cve_id)

IsBehind-insert :
    (g f : Finding) (gs : List Finding)
    → before f g ≡ false
    → IsBehind g gs
    → IsBehind g (insert_finding f gs)
unfolding insert_finding
IsBehind-insert g f [] h k = h
IsBehind-insert g f (e ∷ gs) h k = ground arith

insert_finding-IsSorted :
    (f : Finding) (fs : List Finding) → IsSorted fs → IsSorted (insert_finding f fs)
unfolding insert_finding
insert_finding-IsSorted f [] h = (tt, tt)
insert_finding-IsSorted f (g ∷ gs) h = elim (Bool-cases (before g f)) [
  | inl e ↦ rw e (IsBehind-insert g f gs (before_asym f g e) h.0, insert_finding-IsSorted f gs h.1)
  | inr e ↦ rw e (e, h)
]

sort_findings-IsSorted : (fs : List Finding) → IsSorted (sort_findings fs)
unfolding sort_findings
sort_findings-IsSorted [] = tt
sort_findings-IsSorted (f ∷ fs) =
    insert_finding-IsSorted f (sort_findings fs) (sort_findings-IsSorted fs)

-- In a report k stands behind g: by a lower score, or by an id that is not above for the same one.
abbrev pub Follows : Finding → Finding → Type 0
Follows g k =
    (k.cvss_score < g.cvss_score)
    ⊎ ((k.cvss_score ≡ g.cvss_score) × (bytes_lt g.cve_id k.cve_id ≡ false))

abbrev pub FollowsAll : Finding → List Finding → Type 0
FollowsAll g [] = Unit
FollowsAll g (k ∷ gs) = Follows g k × FollowsAll k gs

abbrev pub IsFalling : List Finding → Type 0
IsFalling [] = Unit
IsFalling (g ∷ gs) = FollowsAll g gs

follows : (g k : Finding) → before k g ≡ false → Follows g k
follows g k h = ground arith

IsSorted-FollowsAll : (g : Finding) (gs : List Finding) → IsSorted (g ∷ gs) → FollowsAll g gs
IsSorted-FollowsAll g [] h = tt
IsSorted-FollowsAll g (k ∷ gs) h = (follows g k h.0, IsSorted-FollowsAll k gs h.1)

IsSorted-IsFalling : (fs : List Finding) → IsSorted fs → IsFalling fs
IsSorted-IsFalling [] h = tt
IsSorted-IsFalling (g ∷ gs) h = IsSorted-FollowsAll g gs h

-- What the report of n packages, and its summary, hold.
pub record Reported (n : ℕ) (r : List Finding × ScanSummary) : Type 0 where
  pub total : r.1.packages_total ≡ n
  pub covered : r.1.packages_mapped + r.1.packages_unmapped ≡ n
  pub findings : r.1.findings ≡ length r.0
  pub severities : r.1.critical + r.1.high + r.1.medium + r.1.low ≤ length r.0
  pub exposed : r.1.exposed_findings ≤ length r.0
  pub sorted : IsFalling r.0

abbrev pub blank_summary : ScanSummary
blank_summary = record {
  packages_total = 0;
  packages_mapped = 0;
  packages_unmapped = 0;
  packages_no_version = 0;
  findings = 0;
  critical = 0;
  high = 0;
  medium = 0;
  low = 0;
  exposed_findings = 0;
  unmapped_names = [];
}

-- From a new summary scan counts every package once, as mapped or as unmapped; the findings are
-- as many as the report has and are sorted by falling score and, where the score is the same, by
-- falling id; neither the four severities together nor the exposed findings are more.
pub scan-Reported :
    (x : CveIndex) (sockets : List ListeningSocket) (packages : List Package)
    → Reported (length packages) (scan x sockets packages blank_summary)
unfolding scan
scan-Reported x sockets packages =
    let t : ScanSummary = record blank_summary { packages_total = length packages } in
    let e = exposed_products x sockets in
    let (covered, rated_before, total, exposed_before) = scan_loop-seen x e packages t in
    let (found, t') = scan_loop x e packages t in
    let all = sort_findings found in
    let (kept, severities, same_total, found_all, exposed) =
      count_loop-seen all (record t' { findings = length all }) in
    record {
      total = omega (arith, total, same_total);
      covered = omega (arith, covered, kept);
      findings = found_all;
      severities = omega (arith, rated_before, severities);
      exposed = omega (arith, exposed_before, exposed);
      sorted = IsSorted-IsFalling all (sort_findings-IsSorted found);
    }
