-- ===== src/Windows/Registry.antt =====
-- The registry helpers and collect_host of src/platform/platform_windows.cpp.
use nano_sensor.Base.{
  ℕ, Bool, true, false, ◌&&◌, Option, none, some, List, [], ◌∷◌, ◌++◌, leb, ◌==◌, if◌then◌else◌,
  drop,
}
use nano_sensor.Base.Int.{ℤ, pos, negsuc}
use nano_sensor.Text.{Bytes, codes, starts_with}
use nano_sensor.Json.{print_i64}
use nano_sensor.Numbers.{atoi}
use nano_sensor.Cve.Names.{is_empty}
use nano_sensor.Inventory.{HostInfo, Status}

-- A value of type REG_SZ: absent, of another type or without bytes; lost between the two reads; or
-- UTF-16 units.
pub data RegValue : Type 0 where
  no_value lost : RegValue
  units : List ℕ → RegValue

-- wcsnlen: the units in front of the first 0.
unfoldable pub in_front_of_nul : List ℕ → List ℕ
in_front_of_nul [] = []
in_front_of_nul (c ∷ cs) = let rest = in_front_of_nul cs in if c == 0 then [] else c ∷ rest

abbrev pub last_error_string : Bytes → ℕ → Bytes
last_error_string api e = api ++ (codes " failed, error " ++ print_i64 (pos e))

-- wProcessorArchitecture, by the values that are named.
pub data Architecture : Type 0 where
  amd64 arm64 arm intel other_architecture : Architecture

unfoldable pub native_arch : Architecture → Bytes
native_arch amd64 = codes "x86_64"
native_arch arm64 = codes "arm64"
native_arch arm = codes "arm"
native_arch intel = codes "x86"
native_arch other_architecture = []

-- build_no >= 22000; a value that is no long is not reduced.
abbrev pub is_windows_11 : ℤ → Bool
is_windows_11 (pos n) = leb 22000 n
is_windows_11 (negsuc n) = false

unfoldable pub corrected : ℤ → Bytes → Bytes
corrected build_no os_name =
    if is_windows_11 build_no && starts_with (codes "Windows 10") os_name
    then codes "Windows 11" ++ drop 10 os_name
    else os_name

-- The name of the computer or the error, and the values of the key CurrentVersion.
pub record HostCalls : Type 0 where
  pub computer_name : Option (List ℕ)
  pub name_error : ℕ
  pub product_name : RegValue
  pub display_version : RegValue
  pub release_id : RegValue
  pub build_number : RegValue
  pub architecture : Architecture

abbrev pub text_or : Bytes → Option Bytes → Bytes
text_or old none = old
text_or old (some text) = text

abbrev pub warn_none : Option Bytes → Bytes → List Bytes
warn_none none w = w ∷ []
warn_none (some text) w = []

module _ (utf8_from_wide : List ℕ → Bytes) where
  -- reg_read_string and reg_value_string; none where they return false.
  unfoldable pub reg_value_string : RegValue → Option Bytes
  reg_value_string no_value = none
  reg_value_string lost = none
  reg_value_string (units ws) = some (utf8_from_wide (in_front_of_nul ws))

  abbrev pub os_version_of : HostCalls → Option Bytes → Bytes → Bytes
  os_version_of calls none old = text_or old (reg_value_string calls.release_id)
  os_version_of calls (some text) old = text

  abbrev pub with_build : Option Bytes → HostInfo → HostInfo
  with_build none out = out
  with_build (some build) out = record out {
    kernel = codes "10.0." ++ build;
    os_name = corrected (atoi build) out.os_name;
  }

  abbrev pub named : HostCalls → HostInfo → HostInfo
  named calls out = elim calls.computer_name [
    | none ↦ out
    | some name ↦ record out { hostname = utf8_from_wide (in_front_of_nul name) }
  ]

  abbrev pub host_warnings : HostCalls → Bytes → List Bytes
  host_warnings calls arch =
      (elim calls.computer_name as (λ x. List Bytes) [
        | none ↦ last_error_string (codes "GetComputerNameExW") calls.name_error ∷ []
        | some name ↦ []
      ])
      ++ (warn_none (reg_value_string calls.product_name)
            (codes "could not read ProductName from the registry")
          ++ (warn_none (reg_value_string calls.build_number)
                (codes "could not read CurrentBuildNumber from the registry")
              ++ (if is_empty arch then codes "unrecognised processor architecture" ∷ [] else [])))

  unfoldable pub collect_host : HostCalls → HostInfo → Status × HostInfo
  collect_host calls out =
      let host = named calls out in
      let versioned : HostInfo = record host {
        os_name = text_or host.os_name (reg_value_string calls.product_name);
        os_version = os_version_of calls (reg_value_string calls.display_version) host.os_version;
      } in
      let built = with_build (reg_value_string calls.build_number) versioned in
      let arch = native_arch calls.architecture in
      (
        record { implemented = true; warnings = host_warnings calls arch },
        record built { arch = arch },
      )
