-- ===== src/Windows/Packages.antt =====
-- collect_packages of src/platform/platform_windows.cpp.
use nano_sensor.Base.{
  ℕ, Bool, true, false, not, ◌&&◌, Option, none, some, List, [], ◌∷◌, ◌++◌, ◌==◌, if◌then◌else◌,
}
use nano_sensor.Base.Int.{pos}
use nano_sensor.Text.{Bytes, codes, bytes_eq, bytes_lt}
use nano_sensor.Json.{print_i64}
use nano_sensor.Cve.Names.{is_empty}
use nano_sensor.Inventory.{Status, Package}
use nano_sensor.Linux.Packages.{no_list}
use nano_sensor.Windows.Registry.{RegValue, text_or, reg_value_string}

-- A key below Uninstall: whether it opens, and its values.
pub record Entry : Type 0 where
  pub opens : Bool
  pub display_name : RegValue
  pub system_component : Option ℕ
  pub display_version : RegValue
  pub publisher : RegValue

-- What the calls of RegEnumKeyEx bring in turn, up to the last.
pub data Keys : Type 0 where
  no_more_items : Keys
  stopped : ℕ → Keys
  key : Entry → Keys → Keys

-- The Uninstall key of a view.
pub data View : Type 0 where
  file_not_found : View
  not_opened : ℕ → View
  enumerated : Keys → View

abbrev pub is_hidden : Option ℕ → Bool
is_hidden none = false
is_hidden (some sys_component) = sys_component == 1

module _ (utf8_from_wide : List ℕ → Bytes) where
  abbrev pub package_named : Bytes → Entry → Option Bytes → Option Package
  package_named label e none = none
  package_named label e (some name) =
      if not (is_empty name) && not (is_hidden e.system_component)
      then some (record {
        name = name;
        version = text_or [] (reg_value_string utf8_from_wide e.display_version);
        vendor = text_or [] (reg_value_string utf8_from_wide e.publisher);
        source = label;
      })
      else none

  -- The package of a key; none where the loop goes on to the next.
  unfoldable pub package_of : Bytes → Entry → Option Package
  package_of label e =
      if e.opens
      then package_named label e (reg_value_string utf8_from_wide e.display_name)
      else none

  abbrev pub and_package : Option Package → List Bytes × List Package → List Bytes × List Package
  and_package none found = found
  and_package (some p) (warnings, out) = (warnings, p ∷ out)

  unfoldable pub key_loop : Bytes → Keys → List Bytes × List Package
  key_loop label no_more_items = ([], [])
  key_loop label (stopped rc) = (
    (codes "RegEnumKeyExW stopped early in "
          ++ (label ++ (codes ", status " ++ print_i64 (pos rc))))
        ∷ [],
    [],
  )
  key_loop label (key e rest) = and_package (package_of label e) (key_loop label rest)

  -- The warnings and the packages of a view.
  unfoldable pub scan_uninstall_view : Bytes → View → List Bytes × List Package
  scan_uninstall_view label file_not_found = ([], [])
  scan_uninstall_view label (not_opened rc) = (
    (codes "could not open the "
          ++ (label ++ (codes " uninstall key, status " ++ print_i64 (pos rc))))
        ∷ [],
    [],
  )
  scan_uninstall_view label (enumerated keys) = key_loop label keys

  -- The views of HKLM with 64 and 32 bits, and of HKCU.
  unfoldable pub scan_views : View → View → View → List Bytes × List Package
  scan_views hklm wow64 hkcu =
      let (w1, p1) = scan_uninstall_view (codes "windows-registry") hklm in
      let (w2, p2) = scan_uninstall_view (codes "windows-registry-wow64") wow64 in
      let (w3, p3) = scan_uninstall_view (codes "windows-registry-hkcu") hkcu in
      (w1 ++ (w2 ++ w3), p1 ++ (p2 ++ p3))

unfoldable pub package_before : Package → Package → Bool
package_before a b =
    if not (bytes_eq a.name b.name) then bytes_lt a.name b.name else bytes_lt a.version b.version

-- std::sort, which leaves the order of equal packages open; here they keep theirs.
unfoldable pub insert_package : Package → List Package → List Package
insert_package p [] = p ∷ []
insert_package p (q ∷ qs) =
    let rest = insert_package p qs in if package_before q p then q ∷ rest else p ∷ q ∷ qs

unfoldable pub sort_packages : List Package → List Package
sort_packages [] = []
sort_packages (p ∷ ps) = insert_package p (sort_packages ps)

unfoldable pub same_package : Package → Package → Bool
same_package a b = bytes_eq a.name b.name && bytes_eq a.version b.version

-- std::unique behind a package that is kept.
unfoldable pub unique_behind : Package → List Package → List Package
unique_behind p [] = []
unique_behind p (q ∷ qs) =
    let skipped = unique_behind p qs in
    let kept = q ∷ unique_behind q qs in if same_package p q then skipped else kept

unfoldable pub unique : List Package → List Package
unique [] = []
unique (p ∷ ps) = p ∷ unique_behind p ps

unfoldable pub collect_packages : (List ℕ → Bytes) → View → View → View → Status × List Package
collect_packages utf8_from_wide hklm wow64 hkcu =
    let (warnings, found) = scan_views utf8_from_wide hklm wow64 hkcu in
    let out = unique (sort_packages found) in
    let nothing = codes "no installed software found in any registry view" ∷ [] in
    (
      record { implemented = true; warnings = warnings ++ (if no_list out then nothing else []) },
      out,
    )
