-- ===== src/Cve/Best.antt =====
-- What match_package of src/cve.cpp reports for each CVE.
use mathlib.Core.Option
use nano_sensor.Base.{
  ℕ, suc, ◌≤◌, ◌≡◌, refl, sym, ap, true, false, ◌&&◌, Option, none, some, List, [], ◌∷◌, ltb,
  if◌then◌else◌, arith,
}
use nano_sensor.Text.{Bytes, bytes_eq, bytes_eq→eq}
use nano_sensor.Vercmp.{version_upstream_part}
use nano_sensor.Inventory.{Package}
use nano_sensor.Cve.Names.{is_empty}
use nano_sensor.Cve.Index.{CveRule, CveIndex, lookup, product_key, resolve}
use nano_sensor.Cve.Match.{
  Finding, is_hit, finding_of, find_best, put_best, keep_best, best_loop, match_target,
  match_package,
}

-- The score that is reported for a CVE, if it is reported.
abbrev pub score_of : Bytes → List Finding → Option ℕ
score_of id [] = none
score_of id (f ∷ fs) =
    let rest = score_of id fs in if bytes_eq id f.cve_id then some f.cvss_score else rest

-- How often a CVE is reported.
abbrev pub count_id : Bytes → List Finding → ℕ
count_id id [] = 0
count_id id (f ∷ fs) = let rest = count_id id fs in if bytes_eq id f.cve_id then suc rest else rest

abbrev pub larger : Option ℕ → Option ℕ → Option ℕ
larger none b = b
larger (some m) none = some m
larger (some m) (some n) = if ltb m n then some n else some m

-- The score of one rule for a CVE, if the rule is of that CVE and names the version.
abbrev pub score_in : Bytes → Bytes → CveRule → Option ℕ
score_in id v r = if is_hit v r && bytes_eq id r.cve_id then some r.cvss_score else none

-- The largest score of the rules of a CVE that name the version.
abbrev pub top_score : Bytes → Bytes → List CveRule → Option ℕ
top_score id v [] = none
top_score id v (r ∷ rs) = larger (score_in id v r) (top_score id v rs)

larger_assoc : (a b c : Option ℕ) → larger (larger a b) c ≡ larger a (larger b c)
larger_assoc none b c = refl
larger_assoc (some l) none c = refl
larger_assoc (some l) (some m) none = ground arith
larger_assoc (some l) (some m) (some n) = ground arith

bytes_eq-same : (id a b : Bytes) → bytes_eq a b ≡ true → bytes_eq id b ≡ bytes_eq id a
bytes_eq-same id a b h = ap (bytes_eq id) (sym (bytes_eq→eq a b h))

bytes_eq-other :
    (id a b : Bytes) → bytes_eq a b ≡ false → bytes_eq id a ≡ true → bytes_eq id b ≡ false
bytes_eq-other id a b h e = let same : id ≡ a = bytes_eq→eq id a e in rw same h

score-put :
    (id : Bytes) (fnd : Finding) (fs : List Finding)
    → score_of id (put_best fnd fs)
      ≡ (if bytes_eq id fnd.cve_id then some fnd.cvss_score else score_of id fs)
unfolding put_best
score-put id fnd [] = refl
score-put id fnd (f ∷ fs) = ground (
  arith,
  bytes_eq-same id fnd.cve_id f.cve_id,
  bytes_eq-other id fnd.cve_id f.cve_id,
  score-put id fnd fs,
)

count-put :
    (id : Bytes) (fnd : Finding) (fs : List Finding)
    → count_id id (put_best fnd fs)
      ≤ (if bytes_eq id fnd.cve_id && (ltb (count_id id fs) 1) then 1 else count_id id fs)
unfolding put_best
count-put id fnd [] = ground arith
count-put id fnd (f ∷ fs) = ground (
  arith,
  bytes_eq-same id fnd.cve_id f.cve_id,
  bytes_eq-other id fnd.cve_id f.cve_id,
  count-put id fnd fs,
)

score-find :
    (id : Bytes) (fs : List Finding)
    → score_of id fs ≡ Option.map (λ (f : Finding). f.cvss_score) (find_best id fs)
unfolding find_best
score-find id [] = refl
score-find id (f ∷ fs) = ground (arith, score-find id fs)

score-same : (a b : Bytes) (fs : List Finding) → bytes_eq a b ≡ true → score_of a fs ≡ score_of b fs
score-same a b fs h = ap (λ (t : Bytes). score_of t fs) (bytes_eq→eq a b h)

score-keep :
    (id : Bytes) (fnd : Finding) (fs : List Finding)
    → score_of id (keep_best fnd fs)
      ≡ larger (score_of id fs) (if bytes_eq id fnd.cve_id then some fnd.cvss_score else none)
unfolding keep_best
score-keep id fnd fs =
    ground (arith, score-put id fnd fs, score-find fnd.cve_id fs, score-same id fnd.cve_id fs)

count-keep :
    (id : Bytes) (fnd : Finding) (fs : List Finding)
    → count_id id fs ≤ 1
    → count_id id (keep_best fnd fs) ≤ 1
unfolding keep_best
count-keep id fnd fs h = ground (arith, count-put id fnd fs)

best_loop-score :
    (id : Bytes) (pkg : Package) (v : Bytes) (target : Bytes × Bytes) (rs : List CveRule)
    (fs : List Finding)
    → score_of id (best_loop pkg v target rs fs) ≡ larger (score_of id fs) (top_score id v rs)
unfolding best_loop
best_loop-score id pkg v target [] fs = ground arith
best_loop-score id pkg v target (r ∷ rs) fs = ground (
  arith,
  score-keep id (finding_of pkg v target r) fs,
  larger_assoc (score_of id fs) (score_in id v r) (top_score id v rs),
  best_loop-score id pkg v target rs fs,
  best_loop-score id pkg v target rs (keep_best (finding_of pkg v target r) fs),
)

best_loop-count :
    (id : Bytes) (pkg : Package) (v : Bytes) (target : Bytes × Bytes) (rs : List CveRule)
    (fs : List Finding)
    → count_id id fs ≤ 1
    → count_id id (best_loop pkg v target rs fs) ≤ 1
unfolding best_loop
best_loop-count id pkg v target [] fs h = h
best_loop-count id pkg v target (r ∷ rs) fs h = ground (
  arith,
  count-keep id (finding_of pkg v target r) fs h,
  best_loop-count id pkg v target rs fs,
  best_loop-count id pkg v target rs (keep_best (finding_of pkg v target r) fs),
)

matched :
    (x : CveIndex) (pkg : Package) (target : Bytes × Bytes) (rules : List CveRule)
    → resolve x pkg.name ≡ some target
    → lookup (product_key target.0 target.1) x.by_product ≡ some rules
    → is_empty pkg.version ≡ false
    → is_empty (version_upstream_part pkg.version) ≡ false
    → match_package x pkg ≡ best_loop pkg (version_upstream_part pkg.version) target rules []
unfolding match_package match_target
matched x pkg target rules resolved found some_version some_upstream = ground arith

-- For a package whose name resolves to a product of the index, and whose version has an upstream
-- part v, match_package reports each CVE once at most, and with the largest score of the rules of
-- that CVE that name v; a CVE without such a rule is not reported.
pub match_package-top_score :
    (x : CveIndex) (pkg : Package) (target : Bytes × Bytes) (rules : List CveRule) (id : Bytes)
    → resolve x pkg.name ≡ some target
    → lookup (product_key target.0 target.1) x.by_product ≡ some rules
    → is_empty pkg.version ≡ false
    → is_empty (version_upstream_part pkg.version) ≡ false
    → (score_of id (match_package x pkg) ≡ top_score id (version_upstream_part pkg.version) rules)
      × (count_id id (match_package x pkg) ≤ 1)
match_package-top_score x pkg target rules id resolved found some_version some_upstream =
    rw (matched x pkg target rules resolved found some_version some_upstream) (
      best_loop-score id pkg (version_upstream_part pkg.version) target rules [],
      best_loop-count id pkg (version_upstream_part pkg.version) target rules [] (omega arith),
    )
