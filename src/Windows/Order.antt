-- ===== src/Windows/Order.antt =====
-- The order by which collect_packages of src/platform/platform_windows.cpp sorts.
use mathlib.Core.Path.{subst}
use nano_sensor.Base.{◌≡◌, sym, ◌∙◌, inl, inr, true, false, Bool-cases, List, [], ◌∷◌, arith, All}
use nano_sensor.Text.{Bytes, bytes_eq, bytes_eq→eq, bytes_eq_refl}
use nano_sensor.Text.Order.{Le, bytes_lt_irrefl, bytes_lt-le, Le-trans, Le-antisym}
use nano_sensor.Inventory.{Package}
use nano_sensor.Windows.Packages.{package_before, insert_package, sort_packages, same_package}

-- a is not behind b.
abbrev pub PackageLe : Package → Package → Type 0
PackageLe a b = package_before b a ≡ false

-- The order, by names first.
abbrev pub InOrder : Package → Package → Type 0
InOrder a b = Le a.name b.name × (a.name ≡ b.name → Le a.version b.version)

in_order : (a b : Package) → PackageLe a b → InOrder a b
unfolding package_before
in_order a b h = elim (Bool-cases (bytes_eq b.name a.name)) [
  | inl e ↦
      let same = bytes_eq→eq b.name a.name e in
      (rw same (bytes_lt_irrefl a.name), λ n. ground (arith, h, e))
  | inr e ↦ (
    ground (arith, h, e),
    λ n. absurd (
        ground
          (arith, subst (λ (s : Bytes). bytes_eq s a.name ≡ true) n (bytes_eq_refl a.name), e)),
  )
]

pub of_order : (a b : Package) → InOrder a b → PackageLe a b
unfolding package_before
of_order a b (names, versions) = elim (Bool-cases (bytes_eq b.name a.name)) [
  | inl e ↦ ground (arith, versions (sym (bytes_eq→eq b.name a.name e)), e)
  | inr e ↦ ground (arith, names, e)
]

pub PackageLe-trans : (a b c : Package) → PackageLe a b → PackageLe b c → PackageLe a c
PackageLe-trans a b c p q =
    let (n, v) = in_order a b p in
    let (n', v') = in_order b c q in
    of_order a c (
      Le-trans a.name b.name c.name n n',
      λ e.
          let back : Le b.name a.name = subst (λ (s : Bytes). Le b.name s) (sym e) n' in
          let same : a.name ≡ b.name = Le-antisym a.name b.name n back in
          Le-trans a.version b.version c.version (v same) (v' (sym same ∙ e)),
    )

before-le : (a b : Package) → package_before a b ≡ true → PackageLe a b
unfolding package_before
before-le a b h = elim (Bool-cases (bytes_eq a.name b.name)) [
  | inl e ↦
      let same = bytes_eq→eq a.name b.name e in
      of_order a b (
        rw same (bytes_lt_irrefl b.name),
        λ n. bytes_lt-le a.version b.version (ground (arith, h, e)),
      )
  | inr e ↦ of_order a b (
    bytes_lt-le a.name b.name (ground (arith, h, e)),
    λ n. absurd (
        ground
          (arith, subst (λ (s : Bytes). bytes_eq a.name s ≡ true) n (bytes_eq_refl a.name), e)),
  )
]

-- Packages that are not behind each other have one name and version.
pub PackageLe-antisym : (a b : Package) → PackageLe a b → PackageLe b a → same_package a b ≡ true
unfolding same_package
PackageLe-antisym a b p q =
    let (n, v) = in_order a b p in
    let (n', v') = in_order b a q in
    let same = Le-antisym a.name b.name n n' in
    rw (same, Le-antisym a.version b.version (v same) (v' (sym same)), bytes_eq_refl b.name)
      (bytes_eq_refl b.version)

abbrev pub IsSorted : List Package → Type 0
IsSorted [] = Unit
IsSorted (p ∷ ps) = All (λ q. PackageLe p q) ps × IsSorted ps

above_trans :
    (p q : Package) (ps : List Package)
    → PackageLe p q
    → All (λ r. PackageLe q r) ps
    → All (λ r. PackageLe p r) ps
above_trans p q [] h k = tt
above_trans p q (r ∷ ps) h (first, k) = (PackageLe-trans p q r h first, above_trans p q ps h k)

above-insert :
    (p q : Package) (ps : List Package)
    → PackageLe p q
    → All (λ r. PackageLe p r) ps
    → All (λ r. PackageLe p r) (insert_package q ps)
unfolding insert_package
above-insert p q [] h k = (h, tt)
above-insert p q (r ∷ ps) h k = ground (arith, above-insert p q ps h k.1)

insert_package-IsSorted :
    (p : Package) (ps : List Package) → IsSorted ps → IsSorted (insert_package p ps)
unfolding insert_package
insert_package-IsSorted p [] h = (tt, tt)
insert_package-IsSorted p (q ∷ ps) (above, h) = elim (Bool-cases (package_before q p)) [
  | inl e ↦ rw e (above-insert q p ps (before-le q p e) above, insert_package-IsSorted p ps h)
  | inr e ↦ rw e ((e, above_trans p q ps e above), (above, h))
]

pub sort_packages-IsSorted : (ps : List Package) → IsSorted (sort_packages ps)
unfolding sort_packages
sort_packages-IsSorted [] = tt
sort_packages-IsSorted (p ∷ ps) =
    insert_package-IsSorted p (sort_packages ps) (sort_packages-IsSorted ps)
