-- ===== src/Agent/Watchdog.antt =====
-- The watchdog of src/agent.cpp.
use nano_sensor.Base.{
  ℕ, zero, suc, ◌+◌, ◌-◌, ◌*◌, Option, none, some, List, [], ◌∷◌, ◌++◌, ltb, ◌==◌, if◌then◌else◌,
}
use nano_sensor.Base.Int.{ℤ, pos, negsuc}
use nano_sensor.Text.{Bytes}

pub record Entry : Type 0 where
  pub id : ℕ
  pub what : Bytes
  pub since : ℕ

-- The entries stand in ascending order of their ids, as in the map; times are in milliseconds.
pub record Watchdog : Type 0 where
  pub next : ℕ
  pub active : List Entry
  pub timeout : ℕ

-- start: none where no thread is started.
unfoldable pub start : ℤ → Option Watchdog
start (negsuc n) = none
start (pos zero) = none
start (pos (suc n)) = some (record { next = 0; active = []; timeout = suc n * 1000 })

-- The new id, and the watchdog behind the call.
unfoldable pub enter : Bytes → ℕ → Watchdog → ℕ × Watchdog
enter what now w =
    let id = w.next + 1 in
    let e : Entry = record { id = id; what = what; since = now } in
    (id, record w { next = id; active = w.active ++ (e ∷ []) })

abbrev pub erase : ℕ → List Entry → List Entry
erase id [] = []
erase id (e ∷ es) = let rest = erase id es in if e.id == id then rest else e ∷ rest

unfoldable pub leave : ℕ → Watchdog → Watchdog
leave id w = record w { active = erase id w.active }

-- The entry that one round of the loop reports, with its age; the process ends there.
unfoldable pub hung : ℕ → ℕ → List Entry → Option (Bytes × ℕ)
hung timeout now [] = none
hung timeout now (e ∷ es) =
    let rest = hung timeout now es in
    if ltb (now - e.since) timeout then rest else some (e.what, now - e.since)

unfoldable pub check : ℕ → Watchdog → Option (Bytes × ℕ)
check now w = hung w.timeout now w.active
