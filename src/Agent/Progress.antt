-- ===== src/Agent/Progress.antt =====
-- The locks of src/agent.cpp without the planted lock-order fault.
use nano_sensor.Base.{
  ℕ, suc, ◌+◌, ◌≤◌, ◌≡◌, refl, ◌⊎◌, inl, inr, Bool, true, false, List, [], ◌∷◌, ◌++◌, length, arith,
  All,
}
use nano_sensor.Agent.Locks.{
  Fault, Mutex, is_deadlock, Op, lock, unlock, tries, guarded, scoped, deliver, run_scan_locks,
  worker_locks, Request, status, scan, findings, affected, other, request_body, handle_locks,
  Thread, thread, is_busy, Moves, locks, unlocks, gets, misses, Among, here, there, Step, Reach,
  start, next, request_threads, agent_threads,
}

-- Calls that hold one mutex at a time.
data IsFlat : List Op → Type 0 where
  done : IsFlat []
  locked : {m : Mutex} {p : List Op} → IsFlat p → IsFlat (lock m ∷ unlock m ∷ p)
  tried : {m : Mutex} {p : List Op} → IsFlat p → IsFlat (tries m ∷ unlock m ∷ p)

IsFlat-append : (p q : List Op) → IsFlat p → IsFlat q → IsFlat (p ++ q)
IsFlat-append _ q done h = h
IsFlat-append _ q (locked f) h = locked (IsFlat-append _ q f h)
IsFlat-append _ q (tried f) h = tried (IsFlat-append _ q f h)

guarded-IsFlat : (m : Mutex) → IsFlat (guarded m)
guarded-IsFlat m = locked done

scoped-IsFlat : (p : List Op) → IsFlat p → IsFlat (scoped p)
scoped-IsFlat p f = locked (IsFlat-append p _ f (locked done))

deliver-IsFlat : (ns : List ℕ) → IsFlat (deliver ns)
deliver-IsFlat [] = done
deliver-IsFlat (n ∷ ns) = locked (deliver-IsFlat ns)

-- A thread between two sections, or inside one that takes no other mutex.
data IsOrderly : Thread → Type 0 where
  outside : {p : List Op} → IsFlat p → IsOrderly (thread [] p)
  inside : {m : Mutex} {p : List Op} → IsFlat p → IsOrderly (thread (m ∷ []) (unlock m ∷ p))

Moves-IsOrderly :
    (busy : Mutex → Bool) {t t' : Thread} → Moves busy t t' → IsOrderly t → IsOrderly t'
Moves-IsOrderly busy (locks free) (outside (locked f)) = inside f
Moves-IsOrderly busy (gets free) (outside (tried f)) = inside f
Moves-IsOrderly busy (misses taken) (outside (tried f)) = outside f
Moves-IsOrderly busy (unlocks e) (inside f) = outside f

abbrev AllOrderly : List Thread → Type 0
AllOrderly ts = All IsOrderly ts

Among-AllOrderly :
    (busy : Mutex → Bool) {ts ts' : List Thread}
    → Among busy ts ts'
    → AllOrderly ts
    → AllOrderly ts'
Among-AllOrderly busy (here m) (o, os) = (Moves-IsOrderly busy m o, os)
Among-AllOrderly busy (there a) (o, os) = (o, Among-AllOrderly busy a os)

Reach-AllOrderly : {n : ℕ} {ts ts' : List Thread} → Reach n ts ts' → AllOrderly ts → AllOrderly ts'
Reach-AllOrderly start os = os
Reach-AllOrderly (next step r) os = Reach-AllOrderly r (Among-AllOrderly _ step os)

-- A thread without calls left.
abbrev pub IsFinished : Thread → Type 0
IsFinished (thread hs p) = p ≡ []

abbrev CanMove : (Mutex → Bool) → List Thread → Type 0
CanMove busy ts = (ts' : List Thread) × Among busy ts ts'

-- A thread inside a section can leave it; otherwise no thread holds a mutex.
leaves :
    (busy : Mutex → Bool) (ts : List Thread)
    → AllOrderly ts
    → CanMove busy ts ⊎ ((m : Mutex) → is_busy m ts ≡ false)
leaves busy [] os = inr (λ m. refl)
leaves busy (t ∷ ts) (inside f, os) = inl (_, here (unlocks refl))
leaves busy (t ∷ ts) (outside f, os) = elim (leaves busy ts os) [
  | inl (ts', a) ↦ inl (_, there a)
  | inr free ↦ inr free
]

-- Where every mutex is free, a thread with calls left can make one.
enters :
    (busy : Mutex → Bool) (ts : List Thread)
    → AllOrderly ts
    → ((m : Mutex) → busy m ≡ false)
    → CanMove busy ts ⊎ All IsFinished ts
enters busy [] os free = inr tt
enters busy (t ∷ ts) (inside f, os) free = inl (_, here (unlocks refl))
enters busy (t ∷ ts) (outside (locked {m = m} f), os) free = inl (_, here (locks (free m)))
enters busy (t ∷ ts) (outside (tried {m = m} f), os) free = inl (_, here (gets (free m)))
enters busy (t ∷ ts) (outside done, os) free = elim (enters busy ts os free) [
  | inl (ts', a) ↦ inl (_, there a)
  | inr finished ↦ inr (refl, finished)
]

moves_on :
    (ts : List Thread) → AllOrderly ts → ((ts' : List Thread) × Step ts ts') ⊎ All IsFinished ts
moves_on ts os = elim (leaves (λ m. is_busy m ts) ts os) [
  | inl move ↦ inl move
  | inr free ↦ enters (λ m. is_busy m ts) ts os free
]

-- The calls that are left.
abbrev pub calls_left : List Thread → ℕ
calls_left [] = 0
calls_left (thread hs p ∷ ts) = length p + calls_left ts

Moves-shorten :
    (busy : Mutex → Bool) {t t' : Thread} (ts : List Thread)
    → Moves busy t t'
    → suc (calls_left (t' ∷ ts)) ≤ calls_left (t ∷ ts)
Moves-shorten busy ts (locks free) = omega arith
Moves-shorten busy ts (unlocks e) = omega arith
Moves-shorten busy ts (gets free) = omega arith
Moves-shorten busy ts (misses taken) = omega arith

Among-shorten :
    (busy : Mutex → Bool) {ts ts' : List Thread}
    → Among busy ts ts'
    → suc (calls_left ts') ≤ calls_left ts
Among-shorten busy (here {ts = ts} m) = Moves-shorten busy ts m
Among-shorten busy (there {t = thread hs p} a) = omega (arith, Among-shorten busy a)

Reach-shorten : {n : ℕ} {ts ts' : List Thread} → Reach n ts ts' → n + calls_left ts' ≤ calls_left ts
Reach-shorten start = omega arith
Reach-shorten (next step r) = omega (arith, Among-shorten _ step, Reach-shorten r)

module _ (fault : Fault) (sound : is_deadlock fault ≡ false) where
  run_scan-IsFlat : (ns : List ℕ) → IsFlat (run_scan_locks fault ns)
  unfolding run_scan_locks
  run_scan-IsFlat ns = rw sound (scoped-IsFlat _ (locked (locked (locked (deliver-IsFlat ns)))))

  worker-IsFlat : (scans : List (List ℕ)) → IsFlat (worker_locks fault scans)
  unfolding worker_locks
  worker-IsFlat [] = locked done
  worker-IsFlat (ns ∷ scans) = locked (IsFlat-append _ _ (run_scan-IsFlat ns) (worker-IsFlat scans))

  body-IsFlat : (r : Request) → IsFlat (request_body fault r)
  body-IsFlat status = rw sound (locked (tried done))
  body-IsFlat (scan n) = locked (locked (locked done))
  body-IsFlat (findings true) = locked (locked done)
  body-IsFlat (findings false) = locked done
  body-IsFlat (affected true) = locked done
  body-IsFlat (affected false) = done
  body-IsFlat other = done

  requests-AllOrderly : (rs : List Request) → AllOrderly (request_threads fault rs)
  unfolding handle_locks
  requests-AllOrderly [] = tt
  requests-AllOrderly (r ∷ rs) = (outside (scoped-IsFlat _ (body-IsFlat r)), requests-AllOrderly rs)

  agent-AllOrderly :
      (scans : List (List ℕ)) (rs : List Request) → AllOrderly (agent_threads fault scans rs)
  unfolding agent_threads
  agent-AllOrderly scans rs = (outside (worker-IsFlat scans), requests-AllOrderly rs)

  -- Let the fault be any but the planted lock-order inversion. From the start of the worker, with
  -- any scans, and of a thread for each of any requests, after n steps taken in any order, either
  -- some thread can take its next step, or every thread is finished; and n is at most the number of
  -- calls on mutexes that they had to make.
  pub agent_progress :
      (scans : List (List ℕ)) (rs : List Request) (n : ℕ) (ts : List Thread)
      → Reach n (agent_threads fault scans rs) ts
      → (((ts' : List Thread) × Step ts ts') ⊎ All IsFinished ts)
        × (n ≤ calls_left (agent_threads fault scans rs))
  agent_progress scans rs n ts r =
      (moves_on ts (Reach-AllOrderly r (agent-AllOrderly scans rs)), omega (arith, Reach-shorten r))
