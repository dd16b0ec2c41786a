-- ===== src/Windows/Distinct.antt =====
-- The packages that collect_packages of src/platform/platform_windows.cpp reports.
use mathlib.Core.List.{Mem, mem-cons_self, mem-cons_of_mem}
use nano_sensor.Base.{
  ℕ, ◌≡◌, refl, inl, inr, Bool, true, false, Bool-cases, List, [], ◌∷◌, arith, All, if_cases, ◌||◌,
}
use nano_sensor.Text.{Bytes, bytes_eq→eq, bytes_eq_refl}
use nano_sensor.Text.Order.{bytes_lt_irrefl}
use nano_sensor.Inventory.{Package}
use nano_sensor.Windows.Packages.{
  View, scan_views, package_before, insert_package, sort_packages, same_package, unique_behind,
  unique, collect_packages,
}
use nano_sensor.Windows.Order.{
  PackageLe, of_order, PackageLe-trans, PackageLe-antisym, IsSorted, sort_packages-IsSorted,
}

-- No two packages have one name and version.
abbrev pub AllDistinct : List Package → Type 0
AllDistinct [] = Unit
AllDistinct (p ∷ ps) = All (λ q. same_package p q ≡ false) ps × AllDistinct ps

-- Some package of the list has the name and version of p.
abbrev pub has_same : Package → List Package → Bool
has_same p [] = false
has_same p (q ∷ qs) = same_package p q || has_same p qs

same_package-keys :
    (a b : Package) → same_package a b ≡ true → (a.name ≡ b.name) × (a.version ≡ b.version)
unfolding same_package
same_package-keys a b h = (
  bytes_eq→eq a.name b.name (ground (arith, h)),
  bytes_eq→eq a.version b.version (ground (arith, h)),
)

same_package_refl : (a : Package) → same_package a a ≡ true
unfolding same_package
same_package_refl a = rw (bytes_eq_refl a.name, bytes_eq_refl a.version)

same-le : (p r : Package) → same_package p r ≡ true → PackageLe r p
same-le p r h =
    let (n, v) = same_package-keys p r h in
    of_order r p (rw n (bytes_lt_irrefl r.name), λ e. rw v (bytes_lt_irrefl r.version))

same_trans :
    (r q p : Package) → same_package r q ≡ true → same_package p q ≡ true → same_package r p ≡ true
unfolding same_package
same_trans r q p h k =
    let (n, v) = same_package-keys r q h in
    let (n', v') = same_package-keys p q k in
    rw (n, v, n', v', bytes_eq_refl q.name) (bytes_eq_refl q.version)

above-differs :
    (p q : Package) (rs : List Package)
    → same_package p q ≡ false
    → PackageLe p q
    → All (λ r. PackageLe q r) rs
    → All (λ r. same_package p r ≡ false) rs
above-differs p q [] ne le above = tt
above-differs p q (r ∷ rs) ne le (first, above) = (
  elim (Bool-cases (same_package p r)) [
    | inl e ↦
        absurd (
          ground
            (arith, ne, PackageLe-antisym p q le (PackageLe-trans q r p first (same-le p r e))))
    | inr e ↦ e
  ],
  above-differs p q rs ne le above,
)

unique_behind-All :
    (P : Package → Type 0) (p : Package) (ps : List Package) → All P ps → All P (unique_behind p ps)
unfolding unique_behind
unique_behind-All P p [] h = tt
unique_behind-All P p (q ∷ qs) (first, h) =
    if_cases (All P) (same_package p q) _ _ (λ e. unique_behind-All P p qs h)
      (λ e. (first, unique_behind-All P q qs h))

unique_behind-AllDistinct :
    (p : Package) (ps : List Package)
    → All (λ q. PackageLe p q) ps
    → IsSorted ps
    → All (λ q. same_package p q ≡ false) (unique_behind p ps) × AllDistinct (unique_behind p ps)
unfolding unique_behind
unique_behind-AllDistinct p [] above sorted = (tt, tt)
unique_behind-AllDistinct p (q ∷ qs) (first, above) (behind, sorted) =
    if_cases (λ out. All (λ r. same_package p r ≡ false) out × AllDistinct out) (same_package p q) _
      _ (λ e. unique_behind-AllDistinct p qs above sorted)
      (λ e.
        let differs =
          above-differs p q (unique_behind q qs) e first
            (unique_behind-All (λ r. PackageLe q r) q qs behind) in
        ((e, differs), unique_behind-AllDistinct q qs behind sorted))

has_same-insert :
    (p q : Package) (ps : List Package)
    → has_same p (insert_package q ps) ≡ (same_package p q || has_same p ps)
unfolding insert_package
has_same-insert p q [] = refl
has_same-insert p q (r ∷ ps) = ground (arith, has_same-insert p q ps)

has_same-unique_behind :
    (r p : Package) (ps : List Package)
    → has_same r (p ∷ ps) ≡ true
    → has_same r (p ∷ unique_behind p ps) ≡ true
unfolding unique_behind
has_same-unique_behind r p [] h = h
has_same-unique_behind r p (q ∷ qs) h =
    if_cases (λ out. (same_package r p || has_same r out) ≡ true) (same_package p q) _ _
      (λ e. has_same-unique_behind r p qs (ground (arith, h, same_trans r q p)))
      (λ e. ground (arith, h, has_same-unique_behind r q qs))

insert_package-All :
    (P : Package → Type 0) (p : Package) (ps : List Package)
    → P p
    → All P ps
    → All P (insert_package p ps)
unfolding insert_package
insert_package-All P p [] h k = (h, tt)
insert_package-All P p (q ∷ ps) h (first, k) =
    if_cases (All P) (package_before q p) _ _ (λ e. (first, insert_package-All P p ps h k))
      (λ e. (h, (first, k)))

sort_packages-All : (P : Package → Type 0) (ps : List Package) → All P ps → All P (sort_packages ps)
unfolding sort_packages
sort_packages-All P [] h = tt
sort_packages-All P (p ∷ ps) (first, h) =
    insert_package-All P p (sort_packages ps) first (sort_packages-All P ps h)

has_same-sort : (p : Package) (ps : List Package) → has_same p (sort_packages ps) ≡ has_same p ps
unfolding sort_packages
has_same-sort p [] = refl
has_same-sort p (q ∷ ps) = rw (has_same-insert p q (sort_packages ps), has_same-sort p ps)

All-has_same_more :
    (q : Package) (ps found : List Package)
    → All (λ p. has_same p found ≡ true) ps
    → All (λ p. has_same p (q ∷ found) ≡ true) ps
All-has_same_more q [] found h = tt
All-has_same_more q (p ∷ ps) found (first, h) =
    (ground (arith, first), All-has_same_more q ps found h)

All-has_same_self : (ps : List Package) → All (λ p. has_same p ps ≡ true) ps
All-has_same_self [] = tt
All-has_same_self (p ∷ ps) =
    (ground (arith, same_package_refl p), All-has_same_more p ps ps (All-has_same_self ps))

has_same-unique :
    (p : Package) (ps : List Package) → has_same p ps ≡ true → has_same p (unique ps) ≡ true
unfolding unique
has_same-unique p [] h = h
has_same-unique p (q ∷ ps) h = has_same-unique_behind p q ps h

unique-All : (P : Package → Type 0) (ps : List Package) → All P ps → All P (unique ps)
unfolding unique
unique-All P [] h = tt
unique-All P (p ∷ ps) (first, h) = (first, unique_behind-All P p ps h)

unique-AllDistinct : (ps : List Package) → IsSorted ps → AllDistinct (unique ps)
unfolding unique
unique-AllDistinct [] sorted = tt
unique-AllDistinct (p ∷ ps) (above, sorted) = unique_behind-AllDistinct p ps above sorted

All-map :
    (P Q : Package → Type 0) (ps : List Package) → ((p : Package) → P p → Q p) → All P ps → All Q ps
All-map P Q [] f h = tt
All-map P Q (p ∷ ps) f (first, h) = (f p first, All-map P Q ps f h)

All-Mem : (ps : List Package) → All (λ p. Mem p ps) ps
unfolding mem-cons_self
All-Mem [] = tt
All-Mem (p ∷ ps) = (
  mem-cons_self,
  All-map (λ q. Mem q ps) (λ q. Mem q (p ∷ ps)) ps (λ q m. mem-cons_of_mem p m) (All-Mem ps),
)

-- Whatever the registry holds, no two packages of the report have one name and version, each is one
-- that a view gave, and each that a view gave has one of its name and version in the report.
pub collect_packages-AllDistinct :
    (utf8_from_wide : List ℕ → Bytes) (hklm wow64 hkcu : View)
    → let found = (scan_views utf8_from_wide hklm wow64 hkcu).1 in
      let out = (collect_packages utf8_from_wide hklm wow64 hkcu).1 in
      AllDistinct out × All (λ p. Mem p found) out × All (λ p. has_same p out ≡ true) found
unfolding collect_packages
collect_packages-AllDistinct utf8_from_wide hklm wow64 hkcu =
    let found = (scan_views utf8_from_wide hklm wow64 hkcu).1 in
    let sorted = sort_packages found in
    (
      unique-AllDistinct sorted (sort_packages-IsSorted found),
      unique-All (λ p. Mem p found) sorted
          (sort_packages-All (λ p. Mem p found) found (All-Mem found)),
      All-map (λ p. has_same p found ≡ true) (λ p. has_same p (unique sorted) ≡ true) found
          (λ p h. has_same-unique p sorted (rw (has_same-sort p found) h))
          (All-has_same_self found),
    )
