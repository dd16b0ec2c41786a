-- ===== src/Windows/Processes.antt =====
-- The snapshot of the processes and collect_processes of src/platform/platform_windows.cpp.
use nano_sensor.Base.{
  ℕ, zero, suc, ◌+◌, true, Option, none, some, List, [], ◌∷◌, ◌++◌, if◌then◌else◌, length,
}
use nano_sensor.Base.Int.{pos}
use nano_sensor.Text.{Bytes, codes}
use nano_sensor.Json.{print_i64}
use nano_sensor.Cve.Names.{is_empty}
use nano_sensor.Inventory.{Status, Process}
use nano_sensor.Windows.Registry.{last_error_string}

-- An entry of the snapshot; the image path is none where the process or its name cannot be opened.
pub record ProcessEntry : Type 0 where
  pub process_id : ℕ
  pub parent_process_id : ℕ
  pub exe_file : List ℕ
  pub image_path : Option (List ℕ)

-- CreateToolhelp32Snapshot and Process32First fail, or the entries follow, one at least.
pub data Snapshot : Type 0 where
  no_snapshot no_first : ℕ → Snapshot
  entries : ProcessEntry → List ProcessEntry → Snapshot

pub record ProcSnapshot : Type 0 where
  pub procs : List Process
  pub names : List (ℕ × Bytes)

module _ (utf8_from_wide : List ℕ → Bytes) where
  unfoldable pub process_image_path : Option (List ℕ) → Bytes
  process_image_path none = []
  process_image_path (some path) = utf8_from_wide path

  abbrev pub process_of : ProcessEntry → Process
  process_of e = record {
    pid = pos e.process_id;
    ppid = pos e.parent_process_id;
    name = utf8_from_wide e.exe_file;
    exe_path = process_image_path e.image_path;
    user = [];
  }

  unfoldable pub entry_loop : List ProcessEntry → ProcSnapshot
  entry_loop [] = record { procs = []; names = [] }
  entry_loop (e ∷ rest) =
      let snap = entry_loop rest in
      let p = process_of e in
      record { procs = p ∷ snap.procs; names = (e.process_id, p.name) ∷ snap.names }

  -- The error, if any, and the snapshot.
  unfoldable pub take_process_snapshot : Snapshot → Option Bytes × ProcSnapshot
  take_process_snapshot (no_snapshot e) =
      (some (last_error_string (codes "CreateToolhelp32Snapshot") e), entry_loop [])
  take_process_snapshot (no_first e) =
      (some (last_error_string (codes "Process32FirstW") e), entry_loop [])
  take_process_snapshot (entries e rest) = (none, entry_loop (e ∷ rest))

  unfoldable pub unresolved : List Process → ℕ
  unresolved [] = 0
  unresolved (p ∷ ps) = (if is_empty p.exe_path then 1 else 0) + unresolved ps

  abbrev pub path_warning : ℕ → ℕ → List Bytes
  path_warning zero total = []
  path_warning (suc n) total =
      (print_i64 (pos (suc n))
        ++ (codes " of "
            ++ (print_i64 (pos total)
                ++ codes " processes had no readable image path (run elevated for full coverage)")))
      ∷ []

  abbrev pub processes_of : Option Bytes × ProcSnapshot → Status × List Process
  processes_of (some error, snap) = (record { implemented = true; warnings = error ∷ [] }, [])
  processes_of (none, snap) = (
    record {
      implemented = true;
      warnings = path_warning (unresolved snap.procs) (length snap.procs);
    },
    snap.procs,
  )

  unfoldable pub collect_processes : Snapshot → Status × List Process
  collect_processes s = processes_of (take_process_snapshot s)
