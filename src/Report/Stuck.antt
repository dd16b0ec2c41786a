-- ===== src/Report/Stuck.antt =====
-- Reporter::drain of src/main.cpp with a cursor at the end of a segment.
use nano_sensor.Base.{
  ℕ, zero, suc, ◌+◌, ◌≤◌, ◌<◌, ◌≡◌, ◌≢◌, refl, ap, ◌∙◌, true, false, List, [], ◌∷◌, ◌++◌, arith,
  length, take, take_front,
}
use mathlib.Core.Path.{subst}
use nano_sensor.Text.{Bytes}
use nano_sensor.Spool.Queue.{Spool, Disk, fine, peek}
use nano_sensor.Spool.Layout.{all_payloads}
use nano_sensor.Spool.Peek.{peek-IsLaid}
use nano_sensor.Spool.Invariant.{IsQueue, peek-IsQueue}
use nano_sensor.Spool.Crossing.{committed_by}
use nano_sensor.Spool.Wedge.{IsStuck, commit-IsStuck, commit-wedges}
use nano_sensor.Report.Drain.{
  Surroundings, Limits, Drain, payloads, no_batch, drain_loop, start, drain,
}
use nano_sensor.Report.Drained.{payloads-number_from}
use nano_sensor.Report.Delivery.{some_length}
use nano_sensor.Report.Emptying.{sent_by, sends}

-- The loop goes on, nothing of the queue q behind the cursor was released past n records in all, and
-- at least `rounds` records were counted as sent.
pub record Spinning (n : ℕ) (q : List Bytes) (rounds : ℕ) (t : Drain) : Type 0 where
  pub runs : t.ended ≡ false
  pub stuck : IsStuck n q (t.spool, t.disk)
  pub counted : rounds ≤ t.sent

batch_there : (room : ℕ) (q : List Bytes) → 0 < room → q ≢ [] → no_batch (take room q) ≡ false
batch_there zero q h some_q = absurd (omega arith)
batch_there (suc room) [] h some_q = absurd (some_q refl)
batch_there (suc room) (p ∷ q) h some_q = refl

nonempty : (ps : List Bytes) → 0 < length ps → no_batch ps ≡ false
nonempty [] h = absurd (omega arith)
nonempty (p ∷ ps) h = refl

peeked :
    (room n : ℕ) (q : List Bytes) (s : Spool) (d : Disk)
    → IsStuck n q (s, d)
    → payloads (peek room s d).0 ≡ take room q
peeked room n q s d h =
    rw (peek-IsLaid s d room h.id h.done [] [] h.gs h.laid, h.queue)
      (payloads-number_from 0 (take room q))

module _ (w : Surroundings) (opt : Limits) (runs : (n : ℕ) → w.stop_requested n ≡ false)
    (accepts : (n : ℕ) (body : Bytes) → (w.post n body).ok ≡ true)
    (works : (n : ℕ) → w.files n ≡ fine) (some_room : 0 < opt.batch_size) where
  loop-Spinning :
      (fuel n attempt c rounds : ℕ) (q : List Bytes) (t : Drain)
      → q ≢ []
      → Spinning c q rounds t
      → Spinning c q (rounds + fuel) (drain_loop w opt fuel n attempt t)
  unfolding drain_loop
  loop-Spinning zero n attempt c rounds q t some_q h = record {
    runs = h.runs;
    stuck = h.stuck;
    counted = omega (arith, h.counted);
  }
  loop-Spinning (suc fuel) n attempt c rounds q t some_q h =
      let batch : List Bytes = take opt.batch_size q in
      let some_batch : no_batch batch ≡ false = batch_there opt.batch_size q some_room some_q in
      let e : rounds + suc fuel ≡ suc rounds + fuel = omega arith in
      rw
        (
          e,
          drain_loop,
          sends w opt runs accepts works n attempt batch t
              (peeked opt.batch_size c q t.spool t.disk h.stuck) h.stuck.is_open some_batch,
        )
        (loop-Spinning fuel (suc n) 0 c (suc rounds) q (sent_by w opt runs accepts works n batch t)
          some_q
          record {
            runs = h.runs;
            stuck = commit-IsStuck fine (length batch) c q t.spool t.disk h.stuck;
            counted = omega (arith, h.counted, some_length batch some_batch);
          })

  -- On an open object that holds a queue, with a batch size above 0 that is exactly the number of
  -- records left in the cursor's segment, whose frames end the file, and with records in later
  -- segments: where nobody requests a stop, the server accepts every POST and every call of the
  -- file system succeeds, a drain never ends. However many rounds it has run, it goes on, it has
  -- counted at least as many records as sent as it has run rounds, but released only the first
  -- batch, and the records of the later segments are all still in the queue.
  pub drain-Spinning :
      (rounds : ℕ) (s : Spool) (d : Disk) (q : List Bytes) (h : IsQueue s d q)
      → h.tail ≡ []
      → length h.todo ≡ opt.batch_size
      → all_payloads h.gs ≢ []
      → s.is_open ≡ true
      → Spinning
          (s.stats.committed + opt.batch_size)
          (all_payloads h.gs)
          (1 + rounds)
          (drain w opt (suc rounds) s d)
  unfolding drain drain_loop
  drain-Spinning rounds s d q h t size later is_open =
      let first : List Bytes = h.todo in
      let e : payloads (peek opt.batch_size s d).0 ≡ first =
        rw (peek-IsQueue opt.batch_size s d h, ← h.queue, ← size)
          (payloads-number_from 0 (take (length first) (first ++ all_payloads h.gs))
            ∙ take_front first (all_payloads h.gs)) in
      rw
        (
          drain_loop,
          sends w opt runs accepts works 0 0 first (start s d) e is_open
              (nonempty first (omega (arith, size))),
        )
        (loop-Spinning rounds 1 0 (s.stats.committed + opt.batch_size) 1 (all_payloads h.gs)
          (sent_by w opt runs accepts works 0 first (start s d)) later
          record {
            runs = refl;
            stuck =
                subst
                  (λ (n : ℕ).
                    IsStuck (s.stats.committed + n) (all_payloads h.gs)
                      (committed_by fine (length first) s d))
                  size
                  (commit-wedges fine [] s d q h t
                    (λ e'. absurd (omega (arith, ap length e', size))) is_open);
            counted = omega (arith, size);
          })
