-- ===== src/Report/Drain.antt =====
-- Reporter::drain of src/main.cpp and the sleep between its attempts.
use nano_sensor.Base.{
  ℕ, zero, suc, ◌+◌, ◌-◌, Bool, true, false, not, none, some, List, [], ◌∷◌, ◌++◌, ltb, leb,
  if◌then◌else◌, length,
}
use nano_sensor.Base.Int.{ℤ, pos, negsuc}
use nano_sensor.Text.{Bytes, codes}
use nano_sensor.Spool.Queue.{Record, Spool, Disk, Outcome, Returned, peek, commit}
use nano_sensor.Transport.Reply.{Result}

-- What the loop meets in each round: the stop request, the reply to the POST of a body, the draw of
-- the delay, and the calls of the file system.
pub record Surroundings : Type 0 where
  pub stop_requested : ℕ → Bool
  pub post : ℕ → Bytes → Result
  pub backoff_delay_ms : ℕ → ℕ → ℕ
  pub files : ℕ → Outcome

-- The members of Options that the loop reads.
pub record Limits : Type 0 where
  pub batch_size : ℕ
  pub max_attempts : ℤ

-- The loop's variables: DrainResult, the spool and its directory; what was done, as the batches that
-- were posted with their results and the delays slept; and whether the loop has ended.
pub record Drain : Type 0 where
  pub sent : ℕ
  pub gave_up : Bool
  pub spool : Spool
  pub disk : Disk
  pub posted : List (List Bytes × Result)
  pub delays : List ℕ
  pub ended : Bool

abbrev pub payloads : List Record → List Bytes
payloads [] = []
payloads (r ∷ rs) = r.payload ∷ payloads rs

-- The records with a comma before each but the first.
unfoldable pub joined : List Bytes → Bytes
joined [] = []
joined (p ∷ []) = p
joined (p ∷ q ∷ ps) = p ++ (codes "," ++ joined (q ∷ ps))

unfoldable pub body_of : List Bytes → Bytes
body_of batch = codes "{\"records\":[" ++ (joined batch ++ codes "]}")

-- attempt >= opt.max_attempts
abbrev pub exhausted : ℤ → ℕ → Bool
exhausted (pos m) attempt = leb m attempt
exhausted (negsuc m) attempt = true

-- A round ends the loop, or goes on with a number of attempts.
pub data Next : Type 0 where
  ends : Drain → Next
  goes_on : ℕ → Drain → Next

abbrev pub give_up : Drain → Next
give_up t = ends (record t { gave_up = true; ended = true })

-- Behind a POST that returned ok.
abbrev pub acknowledge : List Bytes → Returned → Drain → Next
acknowledge batch (e, s, d) t =
    let t' = record t { spool = s; disk = d } in
    elim e [
      | some error ↦ give_up t'
      | none ↦ goes_on 0 (record t' { sent = t.sent + length batch })
    ]

-- Behind a POST that did not; `attempt` is counted already.
abbrev pub retry : Limits → ℕ → ℕ → Drain → Next
retry opt delay attempt t =
    if exhausted opt.max_attempts attempt
    then give_up t
    else goes_on attempt (record t { delays = t.delays ++ (delay ∷ []) })

-- The POST of a batch is noted.
abbrev pub note : List Bytes → Result → Drain → Drain
note batch result t = record t { posted = t.posted ++ ((batch, result) ∷ []) }

-- A batch that is not empty.
abbrev pub send : Surroundings → Limits → ℕ → ℕ → List Bytes → Drain → Next
send w opt n attempt batch t =
    let result = w.post n (body_of batch) in
    let t' = note batch result t in
    if result.ok
    then acknowledge batch (commit (w.files n) (length batch) t.spool t.disk) t'
    else if not result.retryable
    then give_up t'
    else retry opt (w.backoff_delay_ms n (attempt + 1)) (attempt + 1) t'

abbrev pub no_batch : List Bytes → Bool
no_batch [] = true
no_batch (p ∷ ps) = false

-- A round on the batch that was peeked.
abbrev pub round_with : Surroundings → Limits → ℕ → ℕ → List Bytes → Drain → Next
round_with w opt n attempt batch t =
    if w.stop_requested n
    then ends (record t { ended = true })
    else if no_batch batch
    then ends (record t { ended = true })
    else send w opt n attempt batch t

-- One round of the loop.
unfoldable pub drain_round : Surroundings → Limits → ℕ → ℕ → Drain → Next
drain_round w opt n attempt t =
    round_with w opt n attempt (payloads (peek opt.batch_size t.spool t.disk).0) t

-- At most `fuel` rounds.
unfoldable pub drain_loop : Surroundings → Limits → ℕ → ℕ → ℕ → Drain → Drain
drain_loop w opt zero n attempt t = t
drain_loop w opt (suc fuel) n attempt t = elim (drain_round w opt n attempt t) [
  | ends t' ↦ t'
  | goes_on attempt' t' ↦ drain_loop w opt fuel (suc n) attempt' t'
]

abbrev pub start : Spool → Disk → Drain
start s d = record {
  sent = 0;
  gave_up = false;
  spool = s;
  disk = d;
  posted = [];
  delays = [];
  ended = false;
}

unfoldable pub drain : Surroundings → Limits → ℕ → Spool → Disk → Drain
drain w opt fuel s d = drain_loop w opt fuel 0 0 (start s d)

-- The rounds of sleep_interruptible that are left for `ms - waited`: what was slept, where `stop k` is the
-- request that round k meets.
unfoldable pub sleep_loop : (ℕ → Bool) → ℕ → ℕ → ℕ → ℕ
sleep_loop stop zero k left = 0
sleep_loop stop (suc fuel) k zero = 0
sleep_loop stop (suc fuel) k (suc left) =
    let chunk = if ltb (suc left) 200 then suc left else 200 in
    let more = sleep_loop stop fuel (suc k) (suc left - 200) in if stop k then 0 else chunk + more

abbrev pub as_count : ℤ → ℕ
as_count (pos n) = n
as_count (negsuc n) = 0

-- One round for each millisecond is enough.
unfoldable pub sleep_interruptible : (ℕ → Bool) → ℤ → ℕ
sleep_interruptible stop ms = sleep_loop stop (as_count ms) 0 (as_count ms)
