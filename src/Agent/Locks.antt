-- ===== src/Agent/Locks.antt =====
-- The mutexes of src/agent.cpp and the order in which its threads take them.
use nano_sensor.Base.{
  ℕ, suc, ◌+◌, Bool, true, false, ◌||◌, ◌≡◌, List, [], ◌∷◌, ◌++◌, ◌==◌, if◌then◌else◌,
}

pub data Fault : Type 0 where
  no_fault use_after_free deadlock worker_crash : Fault

-- The mutexes of Agent::Impl, of its watchdog, and the one of each ScanWaiter, by a number.
pub data Mutex : Type 0 where
  db_mu state_mu listeners_mu wake_mu watchdog_mu : Mutex
  waiter_mu : ℕ → Mutex

abbrev pub number : Mutex → ℕ
number db_mu = 0
number state_mu = 1
number listeners_mu = 2
number wake_mu = 3
number watchdog_mu = 4
number (waiter_mu n) = n + 5

abbrev pub same : Mutex → Mutex → Bool
same m n = number m == number n

-- A call on a mutex. `tries m` is a try_lock in front of a release that happens if it succeeded.
pub data Op : Type 0 where
  lock unlock tries : Mutex → Op

-- A lock_guard around code that takes no other mutex.
abbrev pub guarded : Mutex → List Op
guarded m = lock m ∷ unlock m ∷ []

-- Watchdog::Scope around a body.
abbrev pub scoped : List Op → List Op
scoped body = guarded watchdog_mu ++ (body ++ guarded watchdog_mu)

abbrev pub is_deadlock : Fault → Bool
is_deadlock no_fault = false
is_deadlock use_after_free = false
is_deadlock deadlock = true
is_deadlock worker_crash = false

-- on_scan_complete of each listener.
abbrev pub deliver : List ℕ → List Op
deliver [] = []
deliver (n ∷ ns) = guarded (waiter_mu n) ++ deliver ns

-- run_scan, which hands its result to the waiters that it found.
unfoldable pub run_scan_locks : Fault → List ℕ → List Op
run_scan_locks fault waiting =
    let nested = lock db_mu ∷ lock state_mu ∷ unlock state_mu ∷ unlock db_mu ∷ [] in
    let one_by_one = guarded db_mu ++ guarded state_mu in
    scoped (
      (if is_deadlock fault then nested else one_by_one)
      ++ (guarded listeners_mu ++ deliver waiting))

-- worker_loop: one scan for each list of waiters, and the round that finds `stopping`.
unfoldable pub worker_locks : Fault → List (List ℕ) → List Op
worker_locks fault [] = guarded wake_mu
worker_locks fault (waiting ∷ scans) =
    guarded wake_mu ++ (run_scan_locks fault waiting ++ worker_locks fault scans)

-- The requests that take a mutex; `findings` says whether a host name is known, `affected` whether
-- the id is valid.
pub data Request : Type 0 where
  status : Request
  scan : ℕ → Request
  findings affected : Bool → Request
  other : Request

abbrev pub request_body : Fault → Request → List Op
request_body fault status =
    let nested = lock state_mu ∷ lock db_mu ∷ unlock db_mu ∷ unlock state_mu ∷ [] in
    let one_by_one = guarded state_mu ++ (tries db_mu ∷ unlock db_mu ∷ []) in
    if is_deadlock fault then nested else one_by_one
request_body fault (scan n) = guarded listeners_mu ++ (guarded wake_mu ++ guarded (waiter_mu n))
request_body fault (findings known) = guarded state_mu ++ (if known then guarded db_mu else [])
request_body fault (affected valid) = if valid then guarded db_mu else []
request_body fault other = []

-- Agent::handle.
unfoldable pub handle_locks : Fault → Request → List Op
handle_locks fault request = scoped (request_body fault request)

-- A thread holds mutexes and has calls left.
pub data Thread : Type 0 where
  thread : List Mutex → List Op → Thread

abbrev pub holds : Mutex → List Mutex → Bool
holds m [] = false
holds m (h ∷ hs) = same m h || holds m hs

abbrev pub is_busy : Mutex → List Thread → Bool
is_busy m [] = false
is_busy m (thread hs p ∷ ts) = holds m hs || is_busy m ts

-- One call of one thread, where `busy` says which mutexes are held by any thread.
pub data Moves (busy : Mutex → Bool) : Thread → Thread → Type 0 where
  locks :
      {m : Mutex} {hs : List Mutex} {p : List Op}
      → busy m ≡ false
      → Moves busy (thread hs (lock m ∷ p)) (thread (m ∷ hs) p)
  unlocks :
      {m held : Mutex} {hs : List Mutex} {p : List Op}
      → held ≡ m
      → Moves busy (thread (held ∷ hs) (unlock m ∷ p)) (thread hs p)
  gets :
      {m : Mutex} {hs : List Mutex} {p : List Op}
      → busy m ≡ false
      → Moves busy (thread hs (tries m ∷ p)) (thread (m ∷ hs) p)
  misses :
      {m : Mutex} {hs : List Mutex} {release : Op} {p : List Op}
      → busy m ≡ true
      → Moves busy (thread hs (tries m ∷ release ∷ p)) (thread hs p)

-- One thread of the list moves.
pub data Among (busy : Mutex → Bool) : List Thread → List Thread → Type 0 where
  here : {t t' : Thread} {ts : List Thread} → Moves busy t t' → Among busy (t ∷ ts) (t' ∷ ts)
  there : {t : Thread} {ts ts' : List Thread} → Among busy ts ts' → Among busy (t ∷ ts) (t ∷ ts')

abbrev pub Step : List Thread → List Thread → Type 0
Step ts ts' = Among (λ m. is_busy m ts) ts ts'

-- n steps in any order of the threads.
pub data Reach : ℕ → List Thread → List Thread → Type 0 where
  start : {ts : List Thread} → Reach 0 ts ts
  next :
      {n : ℕ} {ts ts' ts'' : List Thread} → Step ts ts' → Reach n ts' ts'' → Reach (suc n) ts ts''

-- The worker thread, and one thread for each request.
abbrev pub request_threads : Fault → List Request → List Thread
request_threads fault [] = []
request_threads fault (r ∷ rs) = thread [] (handle_locks fault r) ∷ request_threads fault rs

unfoldable pub agent_threads : Fault → List (List ℕ) → List Request → List Thread
agent_threads fault scans requests =
    thread [] (worker_locks fault scans) ∷ request_threads fault requests
