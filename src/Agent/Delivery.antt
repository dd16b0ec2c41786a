-- ===== src/Agent/Delivery.antt =====
-- The waiters of src/agent.cpp over any requests and scans.
use nano_sensor.Base.{
  ℕ, ◌≡◌, ◌≢◌, false, refl, sym, ap, ◌∙◌, Option, none, some, List, [], ◌∷◌, ◌++◌,
}
use mathlib.Core.List.{append_assoc, append-nil}
use nano_sensor.Agent.Locks.{Fault, no_fault, use_after_free, deadlock, worker_crash}
use nano_sensor.Text.{Bytes}
use nano_sensor.Cve.Match.{Finding}
use nano_sensor.Cve.Scan.{scan}
use nano_sensor.Report.Commands.{new_summary}
use nano_sensor.Agent.Results.{ScanResult, worst_finding}
use nano_sensor.Agent.Scan.{
  AgentConfig, AgentState, ScanHost, hand_out, update_state, deliver_result, finish_scan,
  scan_result, run_scan, request_scan, register, time_out, dangling,
}

-- A scan request that registers its waiter, one whose wait times out, and a scan of the worker.
pub data Event : Type 0 where
  registers times_out : ℕ → Event
  scans : ScanHost → Event

abbrev pub then_run : Option AgentState → (AgentState → Option AgentState) → Option AgentState
then_run none f = none
then_run (some m) f = f m

-- The state behind the events; none where the process has ended.
abbrev pub run_events : AgentConfig → List Event → AgentState → Option AgentState
run_events cfg [] m = some m
run_events cfg (registers n ∷ es) m = run_events cfg es (register n m)
run_events cfg (times_out n ∷ es) m = run_events cfg es (time_out cfg.fault n m)
run_events cfg (scans host ∷ es) m = then_run (run_scan cfg host m) (run_events cfg es)

abbrev pub registered : List Event → List ℕ
registered [] = []
registered (registers n ∷ es) = n ∷ registered es
registered (times_out n ∷ es) = registered es
registered (scans host ∷ es) = registered es

-- The waiters that have a result, in the order in which they got it.
abbrev pub served : List (ℕ × ScanResult) → List ℕ
served [] = []
served ((n, r) ∷ ds) = n ∷ served ds

abbrev waiters : AgentState → List ℕ
waiters m = served m.delivered ++ m.listeners

served-append : (ds es : List (ℕ × ScanResult)) → served (ds ++ es) ≡ served ds ++ served es
served-append [] es = refl
served-append ((n, r) ∷ ds) es = ap (λ l. n ∷ l) (served-append ds es)

served-hand_out : (ns : List ℕ) (r : ScanResult) → served (hand_out ns r) ≡ ns
served-hand_out [] r = refl
served-hand_out (n ∷ ns) r = ap (λ l. n ∷ l) (served-hand_out ns r)

finish_scan-waiters :
    (cfg : AgentConfig) (host : ScanHost) (r : ScanResult) (m : AgentState)
    → waiters (finish_scan cfg host r m) ≡ waiters m
unfolding deliver_result update_state
finish_scan-waiters cfg host r m =
    append-nil _
    ∙ served-append m.delivered _
    ∙ ap (λ (l : List ℕ). served m.delivered ++ l) (served-hand_out m.listeners _)

worst_finding_returns :
    (fs : List Finding) (fault : Fault)
    → fault ≢ worker_crash
    → (w : Bytes) × (worst_finding fs fault ≡ some w)
unfolding worst_finding
worst_finding_returns fs worker_crash h = absurd (h refl)
worst_finding_returns [] no_fault h = (_, refl)
worst_finding_returns [] use_after_free h = (_, refl)
worst_finding_returns [] deadlock h = (_, refl)
worst_finding_returns (f ∷ fs) no_fault h = (_, refl)
worst_finding_returns (f ∷ fs) use_after_free h = (_, refl)
worst_finding_returns (f ∷ fs) deadlock h = (_, refl)

-- Without the planted fault of handle_scan no waiter is deleted.
time_out-nothing :
    (fault : Fault) (n : ℕ) (m : AgentState) → fault ≢ use_after_free → time_out fault n m ≡ m
unfolding time_out
time_out-nothing no_fault n m h = refl
time_out-nothing use_after_free n m h = absurd (h refl)
time_out-nothing deadlock n m h = refl
time_out-nothing worker_crash n m h = refl

none_dangling : (ns : List ℕ) → dangling ns [] ≡ false
none_dangling [] = refl
none_dangling (n ∷ ns) = none_dangling ns

-- A scan serves all waiters that it finds, in their order.
run_scan-waiters :
    (cfg : AgentConfig) (host : ScanHost) (m : AgentState)
    → cfg.fault ≢ worker_crash
    → m.freed ≡ []
    → (m' : AgentState) × (run_scan cfg host m ≡ some m')
      × (waiters m' ≡ waiters m)
      × (m'.freed ≡ [])
unfolding run_scan
run_scan-waiters cfg host m h alive =
    let inv = host.inventory in
    let (found, summary) = scan host.index inv.sockets inv.packages new_summary in
    let (worst, e) = worst_finding_returns found cfg.fault h in
    (
      finish_scan cfg host (scan_result inv found summary worst) m,
      rw (run_scan, e, alive, none_dangling m.listeners) refl,
      finish_scan-waiters cfg host (scan_result inv found summary worst) m,
      (unfold deliver_result update_state in alive),
    )

-- Without the planted crash of the worker and the planted deletion of waiters, and where no waiter
-- was deleted before: any requests, waits that time out and scans, in any order, leave a state in
-- which the waiters that have a result, in the order in which they got it, and then those that are
-- still registered, in the order in which they asked, are those that were there before and then those
-- that the requests registered: no waiter is lost, served twice or overtaken, whether its wait has
-- timed out or not.
pub run_events-waiters :
    (cfg : AgentConfig) (es : List Event) (m : AgentState)
    → cfg.fault ≢ worker_crash
    → cfg.fault ≢ use_after_free
    → m.freed ≡ []
    → (m' : AgentState) × (run_events cfg es m ≡ some m')
      × (served m'.delivered ++ m'.listeners ≡ (served m.delivered ++ m.listeners) ++ registered es)
run_events-waiters cfg [] m h kept alive = (m, refl, sym (append-nil (waiters m)))
run_events-waiters cfg (registers n ∷ es) m h kept alive =
    let (m', e, w) =
      run_events-waiters cfg es (register n m) h kept (unfold register request_scan in alive) in
    (
      m',
      e,
      w
          ∙ unfold register request_scan in
            ap (λ (l : List ℕ). l ++ registered es)
              (sym (append_assoc (served m.delivered) m.listeners (n ∷ [])))
            ∙ append_assoc (waiters m) (n ∷ []) (registered es),
    )
run_events-waiters cfg (times_out n ∷ es) m h kept alive =
    rw (time_out-nothing cfg.fault n m kept) (run_events-waiters cfg es m h kept alive)
run_events-waiters cfg (scans host ∷ es) m h kept alive =
    let (m1, e1, w1, alive1) = run_scan-waiters cfg host m h alive in
    let (m', e, w) = run_events-waiters cfg es m1 h kept alive1 in
    (m', rw e1 e, w ∙ ap (λ (l : List ℕ). l ++ registered es) w1)
