-- ===== src/Linux/Files.antt =====
-- The text helpers of src/platform/platform_linux.cpp, and /etc/os-release.
use nano_sensor.Base.{
  ℕ, ◌+◌, ◌-◌, Bool, true, false, not, ◌&&◌, Option, none, some, List, [], ◌∷◌, ◌++◌, leb, ◌==◌,
  if◌then◌else◌, length, take, drop,
}
use nano_sensor.Text.{Bytes, codes, bytes_eq, find, all, is_digit}
use nano_sensor.Spool.StateFile.{is_space}
use nano_sensor.Cve.Names.{is_empty, trim, split_from}
use nano_sensor.Inventory.{Status, HostInfo}

abbrev pub last_or : ℕ → Bytes → ℕ
last_or default [] = default
last_or default (c ∷ cs) = last_or c cs

abbrev pub first_or : ℕ → Bytes → ℕ
first_or default [] = default
first_or default (c ∷ cs) = c

unfoldable pub strip_quotes : Bytes → Bytes
strip_quotes s =
    if leb 2 (length s) && ((first_or 0 s == 34) && (last_or 0 s == 34))
    then take (length s - 2) (drop 1 s)
    else s

unfoldable pub is_number : Bytes → Bool
is_number s = not (is_empty s) && all is_digit s

-- The words that `>>` reads from a stream; `cur` is what the word holds so far.
abbrev pub words_from : Bytes → Bytes → List Bytes
words_from cur [] = if is_empty cur then [] else cur ∷ []
words_from cur (c ∷ cs) =
    let closed = words_from [] cs in
    let longer = words_from (cur ++ (c ∷ [])) cs in
    if is_space c then if is_empty cur then closed else cur ∷ closed else longer

unfoldable pub words : Bytes → List Bytes
words line = words_from [] line

-- The name and the version that are set so far.
abbrev pub set_key : Bytes → Bytes → Bytes × Bytes → Bytes × Bytes
set_key key val (name, version) =
    if bytes_eq key (codes "NAME")
    then (val, version)
    else if bytes_eq key (codes "VERSION_ID")
    then (name, val)
    else (name, version)

unfoldable pub os_release_loop : List Bytes → Bytes × Bytes → Bytes × Bytes
os_release_loop [] st = st
os_release_loop (line ∷ lines) st = os_release_loop lines (elim (find b'=' line) [
  | none ↦ st
  | some eq ↦ set_key (take eq line) (strip_quotes (trim (drop (eq + 1) line))) st
])

-- The content of the file, or none if it does not open; whether a name was found, and both.
unfoldable pub read_os_release : Option Bytes → Bytes × Bytes → Bool × Bytes × Bytes
read_os_release none st = (false, st.0, st.1)
read_os_release (some text) st =
    let (name, version) = os_release_loop (split_from 10 [] text) st in
    (not (is_empty name), name, version)

-- gethostname, /etc/os-release and uname, with the error text of a call that fails.
pub record HostCalls : Type 0 where
  pub hostname : Bool × Bytes
  pub os_release : Option Bytes
  pub uname : Bool × Bytes × Bytes

-- collect_host into an empty HostInfo. The second part of a call that failed is its error text.
unfoldable pub collect_host : HostCalls → Status × HostInfo
collect_host calls =
    let (named, host) = calls.hostname in
    let (found, os_name, os_version) = read_os_release calls.os_release ([], []) in
    let (known, kernel, arch) = calls.uname in
    let unnamed = if named then [] else (codes "gethostname failed: " ++ host) ∷ [] in
    let unfound = if found then [] else codes "/etc/os-release unreadable or had no NAME" ∷ [] in
    let unknown = if known then [] else (codes "uname failed: " ++ kernel) ∷ [] in
    (
      record { implemented = true; warnings = unnamed ++ (unfound ++ unknown) },
      record {
        hostname = if named then host else [];
        os_name = os_name;
        os_version = os_version;
        kernel = if known then kernel else [];
        arch = if known then arch else [];
      },
    )
