-- ===== src/Linux/Processes.antt =====
-- collect_processes of src/platform/platform_linux.cpp.
use nano_sensor.Base.{
  ℕ, zero, suc, ◌+◌, ◌^◌, Bool, true, not, Option, none, some, List, [], ◌∷◌, ◌++◌, ltb,
  if◌then◌else◌, length, drop,
}
use nano_sensor.Base.Int.{ℤ, pos}
use nano_sensor.Text.{Bytes, codes, starts_with, rfind, take_while, drop_while, is_digit}
use nano_sensor.Numbers.{atoi}
use nano_sensor.Json.{print_i64}
use nano_sensor.Spool.StateFile.{is_space, run_value}
use nano_sensor.Cve.Names.{is_empty, split_from}
use nano_sensor.Inventory.{Status, Process}
use nano_sensor.Linux.Files.{is_number, words}
use nano_sensor.Linux.Sockets.{process_comm}

abbrev pub second_word : List Bytes → ℤ
second_word (state ∷ ppid ∷ rest) = atoi ppid
second_word ws = pos 0

abbrev pub ppid_behind : Option ℕ → Bytes → ℤ
ppid_behind none stat = pos 0
ppid_behind (some close_paren) stat =
    if ltb (close_paren + 2) (length stat)
    then second_word (words (drop (close_paren + 2) stat))
    else pos 0

-- The parent in the content of /proc/<pid>/stat, from the last closing parenthesis on; 0 if there is none.
unfoldable pub ppid_of : Bytes → ℤ
ppid_of stat = ppid_behind (rfind b')' stat) stat

-- `ls >> uid`: the digits of a 32-bit number, none where it fails. A sign is not read here: the kernel
-- writes none.
abbrev pub uid_of : Bytes → Option ℕ
uid_of text =
    let run = take_while is_digit (drop_while is_space text) in
    if is_empty run
    then none
    else if ltb (run_value 0 run) (2 ^ 32)
    then some (run_value 0 run)
    else none

-- getpwuid is an argument: the name of the user, if it has one.
abbrev pub user_name : (ℕ → Option Bytes) → Option ℕ → Bytes
user_name getpwuid none = []
user_name getpwuid (some uid) = elim (getpwuid uid) [
  | some name ↦ name
  | none ↦ print_i64 (pos uid)
]

-- The loop over /proc/<pid>/status, which stops at the first line of the user ids.
unfoldable pub user_of : (ℕ → Option Bytes) → List Bytes → Bytes
user_of getpwuid [] = []
user_of getpwuid (line ∷ lines) =
    let rest = user_of getpwuid lines in
    let found = user_name getpwuid (uid_of (drop 4 line)) in
    if starts_with (codes "Uid:") line then found else rest

-- The files of one entry of /proc; empty where one does not open.
pub record ProcFiles : Type 0 where
  pub name : Bytes
  pub stat : Bytes
  pub exe : Option Bytes
  pub status : Bytes

abbrev pub exe_or : Option Bytes → Bytes
exe_or none = []
exe_or (some path) = path

unfoldable pub process_of : (ℤ → Bytes) → (ℕ → Option Bytes) → ProcFiles → Process
process_of comm getpwuid f = record {
  pid = atoi f.name;
  ppid = ppid_of f.stat;
  name = process_comm comm (atoi f.name);
  exe_path = exe_or f.exe;
  user = user_of getpwuid (split_from 10 [] f.status);
}

abbrev pub without_exe : Option Bytes → ℕ
without_exe none = 1
without_exe (some path) = 0

-- The number of entries without a link to an executable, and the processes that have a name.
unfoldable pub process_loop : (ℤ → Bytes) → (ℕ → Option Bytes) → List ProcFiles → ℕ × List Process
process_loop comm getpwuid [] = (0, [])
process_loop comm getpwuid (f ∷ fs) =
    let (no_exe, out) = process_loop comm getpwuid fs in
    let p = process_of comm getpwuid f in
    let counted = without_exe f.exe + no_exe in
    if not (is_number f.name)
    then (no_exe, out)
    else if is_empty p.name
    then (counted, out)
    else (counted, p ∷ out)

abbrev pub exe_warning : ℕ → ℕ → List Bytes
exe_warning zero total = []
exe_warning (suc n) total =
    (print_i64 (pos (suc n))
      ++ (codes " of "
          ++ (print_i64 (pos total)
              ++ codes
                  " processes had no readable exe link (kernel threads, or run as root for full coverage)")))
    ∷ []

-- The entries of /proc, or the error text of opendir.
unfoldable pub collect_processes :
    (ℤ → Bytes) → (ℕ → Option Bytes) → Bool → Bytes → List ProcFiles → Status × List Process
collect_processes comm getpwuid opens error fs =
    let (no_exe, out) = process_loop comm getpwuid fs in
    if opens
    then (record { implemented = true; warnings = exe_warning no_exe (length out + no_exe) }, out)
    else (
      record { implemented = true; warnings = (codes "opendir(/proc) failed: " ++ error) ∷ [] },
      [],
    )
