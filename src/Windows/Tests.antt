-- ===== src/Windows/Tests.antt =====
-- Runs of the collectors on Windows.
use nano_sensor.Base.{ℕ, ◌≡◌, refl, true, none, some, List, [], ◌∷◌, ◌++◌, All}
use mathlib.Core.List.{Mem}
use nano_sensor.Base.Int.{pos}
use nano_sensor.Text.{Bytes, codes}
use nano_sensor.Windows.Registry.{no_value, units, in_front_of_nul, reg_value_string, corrected}
use nano_sensor.Windows.Packages.{
  Entry, no_more_items, stopped, key, View, file_not_found, enumerated, package_of, key_loop,
  scan_uninstall_view, scan_views, package_before, insert_package, sort_packages, same_package,
  unique_behind, unique, collect_packages,
}
use nano_sensor.Windows.Distinct.{AllDistinct, has_same, collect_packages-AllDistinct}

-- Units below 128 are their own UTF-8.
abbrev ascii : List ℕ → Bytes
ascii ws = ws

abbrev entry : Bytes → Bytes → Entry
entry name version = record {
  opens = true;
  display_name = units (name ++ (0 ∷ 0 ∷ []));
  system_component = none;
  display_version = units version;
  publisher = no_value;
}

abbrev hidden : Entry
hidden = record (entry (codes "Runtime") []) { system_component = some 1 }

abbrev native : View
native = enumerated (
    key (entry (codes "Zip") (codes "2"))
      (key hidden (key (entry (codes "App") (codes "1")) no_more_items)))

abbrev wow64 : View
wow64 =
    enumerated
      (key (entry (codes "App") (codes "1")) (key (entry (codes "App") (codes "0")) (stopped 5)))

packages_are_sorted_once :
    (collect_packages ascii native wow64 file_not_found).1
    ≡ record {
      name = codes "App";
      version = codes "0";
      vendor = [];
      source = codes "windows-registry-wow64";
    }
      ∷ record {
        name = codes "App";
        version = codes "1";
        vendor = [];
        source = codes "windows-registry";
      }
      ∷ record {
        name = codes "Zip";
        version = codes "2";
        vendor = [];
        source = codes "windows-registry";
      }
      ∷ []
unfolding collect_packages unique unique_behind same_package sort_packages insert_package
    package_before scan_views scan_uninstall_view key_loop package_of reg_value_string
    in_front_of_nul
packages_are_sorted_once = refl

collect_packages-AllDistinct_example :
    AllDistinct (collect_packages ascii native wow64 file_not_found).1
    × All
        (λ p. Mem p (scan_views ascii native wow64 file_not_found).1)
        (collect_packages ascii native wow64 file_not_found).1
    × All
        (λ p. has_same p (collect_packages ascii native wow64 file_not_found).1 ≡ true)
        (scan_views ascii native wow64 file_not_found).1
collect_packages-AllDistinct_example =
    collect_packages-AllDistinct ascii native wow64 file_not_found

windows_11_is_named : corrected (pos 22631) (codes "Windows 10 Pro") ≡ codes "Windows 11 Pro"
unfolding corrected
windows_11_is_named = refl

windows_10_stays : corrected (pos 19045) (codes "Windows 10 Pro") ≡ codes "Windows 10 Pro"
unfolding corrected
windows_10_stays = refl
