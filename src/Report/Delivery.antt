-- ===== src/Report/Delivery.antt =====
-- Reporter::drain of src/main.cpp over the queue of the spool: what a drain releases.
use nano_sensor.Base.{
  if_cases, not, ℕ, zero, suc, ◌+◌, ◌≤◌, ◌<◌, ◌≡◌, refl, ap, ◌∙◌, inl, inr, true, false, Bool-cases,
  Option, none, some, List, [], ◌∷◌, arith, length, take, drop, length-take,
}
use mathlib.Core.Path.{subst}
use nano_sensor.Text.{Bytes}
use nano_sensor.Spool.Queue.{Error, Spool, Disk, Outcome, peek, commit}
use nano_sensor.Spool.Invariant.{peek-IsQueue}
use nano_sensor.Spool.Whole.{IsWholeQueue, IsWholeQueue-IsQueue}
use nano_sensor.Transport.Reply.{Result}
use nano_sensor.Report.Drained.{
  Drained, payloads-number_from, same-Drained, result_of, next-Drained, commit-batch, acked-Drained,
  note-grown, note-ok,
}
use nano_sensor.Report.Drain.{
  note, Surroundings, Limits, Drain, payloads, body_of, Next, acknowledge, retry, send, no_batch,
  exhausted, round_with, drain_round, drain_loop, start, drain,
}

pub acknowledge-Drained :
    (out : Outcome) (n : ℕ) (q : List Bytes) (r : Result) (t : Drain)
    → r.ok ≡ true
    → IsWholeQueue t.spool t.disk q
    → t.spool.is_open ≡ true
    → 0 < n
    → n ≤ length q
    → Drained q t
        (result_of (acknowledge (take n q) (commit out n t.spool t.disk) (note (take n q) r t)))
acknowledge-Drained out n q r t ok h is_open pos b = split (commit out n t.spool t.disk).0 refl
  where
    split :
        (e : Option Error)
        → (commit out n t.spool t.disk).0 ≡ e
        → Drained q t
            (result_of (acknowledge (take n q) (commit out n t.spool t.disk) (note (take n q) r t)))
    split none e = rw e (elim (commit-batch out n t.spool t.disk q h is_open pos b) [
      | inl all ↦ acked-Drained n n q t _ all (inl refl) b (note-ok (take n q) r t ok)
      | inr no_one ↦ acked-Drained n 0 q t _ no_one (inr refl) b (note-ok (take n q) r t ok)
    ])
    split (some error) e = rw e (elim (commit-batch out n t.spool t.disk q h is_open pos b) [
      | inl all ↦ acked-Drained n n q t _ all (inl refl) b (note-ok (take n q) r t ok)
      | inr no_one ↦ acked-Drained n 0 q t _ no_one (inr refl) b (note-ok (take n q) r t ok)
    ])

pub take_taken : (n : ℕ) (q : List Bytes) → take (length (take n q)) q ≡ take n q
take_taken zero q = refl
take_taken (suc n) [] = refl
take_taken (suc n) (p ∷ q) = ap (λ l. p ∷ l) (take_taken n q)

pub some_length : (batch : List Bytes) → no_batch batch ≡ false → 0 < length batch
some_length [] h = absurd (ground arith)
some_length (p ∷ ps) h = omega arith

retry-Drained :
    (opt : Limits) (delay attempt : ℕ) (q batch : List Bytes) (r : Result) (t : Drain)
    → IsWholeQueue t.spool t.disk q
    → Drained q t (result_of (retry opt delay attempt (note batch r t)))
retry-Drained opt delay attempt q batch r t h =
    elim (Bool-cases (exhausted opt.max_attempts attempt)) [
      | inl e ↦ rw e (same-Drained q t _ h refl refl (note-grown batch r t))
      | inr e ↦ rw e (same-Drained q t _ h refl refl (note-grown batch r t))
    ]

-- What peek hands to a round.
pub peek-batch :
    (room : ℕ) (s : Spool) (d : Disk) (q : List Bytes)
    → IsWholeQueue s d q
    → payloads (peek room s d).0 ≡ take room q
peek-batch room s d q h =
    rw (peek-IsQueue room s d (IsWholeQueue-IsQueue s d h)) (payloads-number_from 0 (take room q))

module _ (w : Surroundings) (opt : Limits) where
  send-Drained :
      (n attempt : ℕ) (q : List Bytes) (t : Drain)
      → IsWholeQueue t.spool t.disk q
      → t.spool.is_open ≡ true
      → no_batch (take opt.batch_size q) ≡ false
      → Drained q t (result_of (send w opt n attempt (take opt.batch_size q) t))
  send-Drained n attempt q t h is_open some_batch =
      let batch : List Bytes = take opt.batch_size q in
      let r : Result = w.post n (body_of batch) in
      let b : length batch ≤ length q = omega (arith, length-take opt.batch_size q) in
      let P = λ (x : Next). Drained q t (result_of x) in
      let released = commit (w.files n) (length batch) t.spool t.disk in
      if_cases P r.ok _ _
        (λ ok.
          subst (λ (l : List Bytes). P (acknowledge l released (note l r t)))
            (take_taken opt.batch_size q)
            (acknowledge-Drained (w.files n) (length batch) q r t ok h is_open
              (some_length batch some_batch) b))
        (λ failed.
          if_cases P (not r.retryable) _ _
            (λ final. same-Drained q t _ h refl refl (note-grown batch r t))
            (λ again. retry-Drained opt _ (attempt + 1) q batch r t h))

  pub round_batch :
      (n attempt : ℕ) (q : List Bytes) (t : Drain)
      → IsWholeQueue t.spool t.disk q
      → drain_round w opt n attempt t ≡ round_with w opt n attempt (take opt.batch_size q) t
  unfolding drain_round
  round_batch n attempt q t h = rw (peek-batch opt.batch_size t.spool t.disk q h) refl

  pub round-Drained :
      (n attempt : ℕ) (q : List Bytes) (t : Drain)
      → IsWholeQueue t.spool t.disk q
      → t.spool.is_open ≡ true
      → Drained q t (result_of (drain_round w opt n attempt t))
  round-Drained n attempt q t h is_open =
      rw (round_batch n attempt q t h) (elim (Bool-cases (w.stop_requested n)) [
        | inl stop ↦ rw stop (same-Drained q t _ h refl refl (λ p m. m))
        | inr go ↦ rw go (elim (Bool-cases (no_batch (take opt.batch_size q))) [
          | inl none_left ↦ rw none_left (same-Drained q t _ h refl refl (λ p m. m))
          | inr some_batch ↦ rw some_batch (send-Drained n attempt q t h is_open some_batch)
        ])
      ])

  loop-Drained :
      (fuel n attempt : ℕ) (q : List Bytes) (t : Drain)
      → IsWholeQueue t.spool t.disk q
      → t.spool.is_open ≡ true
      → Drained q t (drain_loop w opt fuel n attempt t)
  unfolding drain_loop
  loop-Drained zero n attempt q t h is_open = same-Drained q t t h refl refl (λ p m. m)
  loop-Drained (suc fuel) n attempt q t h is_open =
      next-Drained (drain_round w opt n attempt t) (round-Drained n attempt q t h is_open)
        (λ attempt' t'. drain_loop w opt fuel (suc n) attempt' t')
        (λ attempt' t' a.
          loop-Drained fuel (suc n) attempt' (drop a.k q) t' a.kept (a.is_open ∙ is_open))

  pub drain-Drained :
      (fuel : ℕ) (s : Spool) (d : Disk) (q : List Bytes)
      → IsWholeQueue s d q
      → s.is_open ≡ true
      → Drained q (start s d) (drain w opt fuel s d)
  unfolding drain
  drain-Drained fuel s d q h is_open = loop-Drained fuel 0 0 q (start s d) h is_open
