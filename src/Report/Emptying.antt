-- ===== src/Report/Emptying.antt =====
-- Reporter::drain of src/main.cpp with a server that accepts each batch.
use nano_sensor.Base.{
  if_true, ℕ, zero, suc, ◌+◌, ◌≤◌, ◌<◌, ◌≡◌, refl, sym, ap, ◌∙◌, inl, inr, true, false, Bool-cases,
  none, List, [], ◌∷◌, ◌++◌, arith, length, take, drop, take-append-drop, length-take, length-drop,
}
use mathlib.Core.Path.{subst}
use mathlib.Core.List.{append-nil, append_assoc}
use nano_sensor.Text.{Bytes}
use nano_sensor.Spool.Queue.{Spool, Disk, fine, peek, save_state, commit}
use nano_sensor.Spool.Release.{Released}
use nano_sensor.Spool.Crossing.{committed_by}
use nano_sensor.Report.Drain.{
  note, Surroundings, Limits, Drain, body_of, ends, goes_on, no_batch, drain_round, drain_loop,
  start, drain, payloads,
}
use nano_sensor.Report.Drained.{acknowledged, note-ok}
use nano_sensor.Report.Delivery.{round_batch, peek-batch, take_taken, some_length}
use nano_sensor.Report.Ending.{IsSingle, single_release, released-IsSingle}

pub commit_succeeds :
    (n : ℕ) (s : Spool) (d : Disk) → s.is_open ≡ true → (commit fine n s d).0 ≡ none
unfolding commit save_state
commit_succeeds n s d h = ground arith

-- What a drain has done with a queue that it emptied.
pub record Emptied (q : List Bytes) (t t' : Drain) : Type 0 where
  pub ended : t'.ended ≡ true
  pub gave_up : t'.gave_up ≡ t.gave_up
  pub acknowledged : acknowledged t' ≡ acknowledged t ++ q
  pub sent : t'.sent ≡ t.sent + length q
  pub delays : t'.delays ≡ t.delays
  pub committed : t'.spool.stats.committed ≡ t.spool.stats.committed + length q
  pub left : IsSingle [] t'.spool t'.disk

drop_past : (n : ℕ) (q : List Bytes) → length q ≤ 0 → q ≡ []
drop_past n [] h = refl
drop_past n (p ∷ q) h = absurd (omega arith)

none_left : (room : ℕ) (q : List Bytes) → 0 < room → no_batch (take room q) ≡ true → q ≡ []
none_left zero q h e = absurd (omega arith)
none_left (suc room) [] h e = refl
none_left (suc room) (p ∷ q) h e = absurd (ground arith)

-- A batch that was released, and the rest of the queue behind it.
Emptied-later :
    (n : ℕ) (q : List Bytes) (t t' t'' : Drain)
    → Released n q t.spool (t'.spool, t'.disk)
    → n ≤ length q
    → t'.gave_up ≡ t.gave_up
    → t'.delays ≡ t.delays
    → acknowledged t' ≡ acknowledged t ++ take n q
    → t'.sent ≡ t.sent + n
    → Emptied (drop n q) t' t''
    → Emptied q t t''
Emptied-later n q t t' t'' r b g d a s e = record {
  ended = e.ended;
  gave_up = e.gave_up ∙ g;
  acknowledged =
      e.acknowledged
      ∙ ap (λ (l : List Bytes). l ++ drop n q) a
      ∙ append_assoc (acknowledged t) (take n q) (drop n q)
      ∙ ap (λ (l : List Bytes). acknowledged t ++ l) (take-append-drop n q);
  sent = omega (arith, e.sent, s, length-drop n q);
  delays = e.delays ∙ d;
  committed = omega (arith, e.committed, r.committed, length-drop n q);
  left = e.left;
}

module _ (w : Surroundings) (opt : Limits) (runs : (n : ℕ) → w.stop_requested n ≡ false)
    (accepts : (n : ℕ) (body : Bytes) → (w.post n body).ok ≡ true)
    (works : (n : ℕ) → w.files n ≡ fine) where
  -- The variables behind a round with a batch.
  abbrev pub sent_by : ℕ → List Bytes → Drain → Drain
  sent_by n batch t = record t {
    sent = t.sent + length batch;
    spool = (committed_by fine (length batch) t.spool t.disk).0;
    disk = (committed_by fine (length batch) t.spool t.disk).1;
    posted = t.posted ++ ((batch, w.post n (body_of batch)) ∷ []);
  }

  pub sends :
      (n attempt : ℕ) (batch : List Bytes) (t : Drain)
      → payloads (peek opt.batch_size t.spool t.disk).0 ≡ batch
      → t.spool.is_open ≡ true
      → no_batch batch ≡ false
      → drain_round w opt n attempt t ≡ goes_on 0 (sent_by n batch t)
  unfolding drain_round
  sends n attempt batch t e is_open some_batch =
      let t' = note batch (w.post n (body_of batch)) t in
      rw (e, runs n, some_batch)
        (if_true (w.post n (body_of batch)).ok _ _ (accepts n (body_of batch))
          ∙ rw (works n, commit_succeeds (length batch) t.spool t.disk is_open) refl)

module _ (w : Surroundings) (opt : Limits) (runs : (n : ℕ) → w.stop_requested n ≡ false)
    (accepts : (n : ℕ) (body : Bytes) → (w.post n body).ok ≡ true)
    (works : (n : ℕ) → w.files n ≡ fine) (some_room : 0 < opt.batch_size) where
  abbrev batch_of : List Bytes → List Bytes
  batch_of q = take opt.batch_size q

  stops :
      (n attempt : ℕ) (q : List Bytes) (t : Drain)
      → IsSingle q t.spool t.disk
      → no_batch (batch_of q) ≡ true
      → drain_round w opt n attempt t ≡ ends (record t { ended = true })
  stops n attempt q t h none_there =
      rw (round_batch w opt n attempt q t h.holds, runs n, none_there) refl

  nothing-Emptied :
      (q : List Bytes) (t : Drain)
      → IsSingle q t.spool t.disk
      → q ≡ []
      → Emptied q t (record t { ended = true })
  nothing-Emptied q t h e = record {
    ended = refl;
    gave_up = refl;
    acknowledged = rw e (sym (append-nil (acknowledged t)));
    sent = omega (arith, ap length e);
    delays = refl;
    committed = omega (arith, ap length e);
    left = subst (λ (l : List Bytes). IsSingle l t.spool t.disk) e h;
  }

  loop-Emptied :
      (fuel n attempt : ℕ) (q : List Bytes) (t : Drain)
      → IsSingle q t.spool t.disk
      → length q < fuel
      → Emptied q t (drain_loop w opt fuel n attempt t)
  unfolding drain_loop
  loop-Emptied zero n attempt q t h b = absurd (omega arith)
  loop-Emptied (suc fuel) n attempt q t h b = elim (Bool-cases (no_batch (batch_of q))) [
    | inl e ↦
        rw (drain_loop, stops n attempt q t h e)
          (nothing-Emptied q t h (none_left opt.batch_size q some_room e))
    | inr e ↦
        let size : ℕ = length (batch_of q) in
        let above : 0 < size = some_length (batch_of q) e in
        let under : size ≤ length q = omega (arith, length-take opt.batch_size q) in
        let released : Released size q t.spool (committed_by fine size t.spool t.disk) =
          single_release fine size t.spool t.disk q h above under in
        rw
          (
            drain_loop,
            sends w opt runs accepts works n attempt (batch_of q) t
                (peek-batch opt.batch_size t.spool t.disk q h.holds) h.is_open e,
          )
          (Emptied-later size q t (sent_by w opt runs accepts works n (batch_of q) t) _ released
            under refl refl
            (note-ok (batch_of q) (w.post n (body_of (batch_of q))) t
                (accepts n (body_of (batch_of q)))
              ∙ ap (λ (l : List Bytes). acknowledged t ++ l) (sym (take_taken opt.batch_size q)))
            refl
            (loop-Emptied fuel (suc n) 0 (drop size q)
              (sent_by w opt runs accepts works n (batch_of q) t)
              (released-IsSingle size q t.spool t.disk _ h released)
              (omega (arith, length-drop size q))))
  ]

  -- On an open object of one segment that is not torn and holds the queue q, with a batch size above
  -- 0, no request to stop, a server that accepts every POST and a file system on which every call
  -- succeeds, a drain of more rounds than q has records ends without giving up or sleeping: the
  -- batches that were acknowledged are exactly q, in its order, each record once, sent counts them,
  -- and the queue that is left is empty.
  pub drain-Emptied :
      (fuel : ℕ) (s : Spool) (d : Disk) (q : List Bytes)
      → IsSingle q s d
      → length q < fuel
      → Emptied q (start s d) (drain w opt fuel s d)
  unfolding drain
  drain-Emptied fuel s d q h b = loop-Emptied fuel 0 0 q (start s d) h b
