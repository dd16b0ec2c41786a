-- ===== src/Spool/Accept.antt =====
-- append of src/spool.cpp as a whole.
use nano_sensor.Base.{
  ℕ, ◌+◌, ◌≤◌, ◌<◌, ◌≡◌, refl, ◌⊎◌, inl, inr, true, false, Bool-cases, none, List, [], ◌∷◌, ◌++◌,
  arith, length, leb, drop, length-append,
}
use nano_sensor.Text.{Bytes}
use nano_sensor.Spool.Codec.{Fits}
use nano_sensor.Spool.Queue.{
  Spool, Disk, Outcome, back, roll, write_frame, accept, append, enforce_bounds, save_state,
  size_max, total_bytes, file_size,
}
use nano_sensor.Spool.Layout.{ids}
use nano_sensor.Spool.Append.{grow, back_snoc, to_last, to_new}
use nano_sensor.Spool.Invariant.{IsQueue, HasNewest, IsQueue-counters, IsQueue-same, AllWhole}
use nano_sensor.Spool.Whole.{IsWholeQueue, IsWholeQueue-same, IsWhole-IsClean}
use nano_sensor.Spool.Bounds.{enforce_bounds-EnforcedWhole}

-- The state file is no segment file.
pub save_state-file :
    (out : Outcome) (s : Spool) (d : Disk) (j : ℕ) → (save_state out s d).1.file j ≡ d.file j
unfolding save_state
save_state-file out s d j = ground arith

pub dest :
    (out : Outcome) (a : ℕ) (p : Bytes) (d : Disk)
    → out.segment_cut ≡ none
    → write_frame out a p d ≡ grow d a p
unfolding write_frame
dest out a p d whole = rw whole

-- The ids behind a roll, over an explicit list.
roll_full :
    (s : Spool) (d : Disk) (id : ℕ) (js : List ℕ)
    → s.segments ≡ id ∷ js
    → leb s.cfg.segment_bytes (file_size d (back id js)) ≡ true
    → roll s d ≡ s.segments ++ ((back id js + 1) ∷ [])
unfolding roll
roll_full s d id js e full = ground arith

roll_open :
    (s : Spool) (d : Disk) (id : ℕ) (js : List ℕ)
    → s.segments ≡ id ∷ js
    → leb s.cfg.segment_bytes (file_size d (back id js)) ≡ false
    → roll s d ≡ s.segments
unfolding roll
roll_open s d id js e free = ground arith

last_rolled : (id a : ℕ) (js l : List ℕ) → l ≡ id ∷ js → back 1 (l ++ (a ∷ [])) ≡ a
last_rolled id a js l e = rw e (back_snoc id a js)

last_open : (id : ℕ) (js l : List ℕ) → l ≡ id ∷ js → back 1 l ≡ back id js
last_open id js l e = rw e

-- The frame of p reached the active file: the queue has p at its end.
written-HasNewest :
    (out : Outcome) (s : Spool) (d : Disk) (p : Bytes) {q : List Bytes} (h : IsQueue s d q)
    → Fits p
    → out.segment_cut ≡ none
    → HasNewest
        (AllWhole h.tail h.gs)
        (record s { segments = roll s d })
        (write_frame out (back 1 (roll s d)) p d)
        (q ++ (p ∷ []))
written-HasNewest out s d p {q} h hp whole =
    let js : List ℕ = ids h.gs in
    let a : ℕ = back h.id js in
    elim (Bool-cases (leb s.cfg.segment_bytes (file_size d a))) [
      | inl full ↦ rw (roll_full s d h.id js h.laid.segments full) (
          rw
            (
              last_rolled h.id (a + 1) js s.segments h.laid.segments,
              dest out (a + 1) p d whole,
              ← h.queue,
            )
            (to_new s d p hp h.id h.done h.todo h.tail h.gs h.laid h.fresh))
      | inr free ↦ rw (roll_open s d h.id js h.laid.segments free) (
          rw (last_open h.id js s.segments h.laid.segments, dest out a p d whole, ← h.queue)
            (to_last s d p hp h.id h.done h.todo h.tail h.gs h.laid h.clean h.fresh))
    ]

-- What append makes of an object s that holds the queue q: the record p at the end, the oldest k
-- records dropped and counted, never p itself, and the budget met or one segment left.
pub record Appended (q : List Bytes) (p : Bytes) (s : Spool) (r : Spool × Disk) : Type 0 where
  pub k : ℕ
  pub kept : IsQueue r.0 r.1 (drop k (q ++ (p ∷ [])))
  pub newest_stays : k ≤ length q
  pub dropped : r.0.stats.dropped ≡ s.stats.dropped + k
  pub appended : r.0.stats.appended ≡ s.stats.appended + 1
  pub committed : r.0.stats.committed ≡ s.stats.committed
  pub is_open : r.0.is_open ≡ s.is_open
  pub within : (total_bytes r.0.segments r.1 ≤ s.cfg.max_bytes) ⊎ (length r.0.segments ≡ 1)

-- And its segments are whole if W.
abbrev pub AppendedWhole : Type 0 → List Bytes → Bytes → Spool → Spool × Disk → Type 0
AppendedWhole W q p s r =
    (a : Appended q p s r) × (W → IsWholeQueue r.0 r.1 (drop a.k (q ++ (p ∷ []))))

abbrev counted : Spool → Spool
counted s = record s {
  next_sequence = s.next_sequence + 1;
  stats = record s.stats { appended = s.stats.appended + 1; pending = s.stats.pending + 1 };
}

total_bytes-same :
    (js : List ℕ) (d d' : Disk)
    → ((j : ℕ) → d'.file j ≡ d.file j)
    → total_bytes js d' ≡ total_bytes js d
unfolding total_bytes
total_bytes-same [] d d' same = refl
total_bytes-same (j ∷ js) d d' same = ground (arith, same j, total_bytes-same js d d' same)

pub accept-AppendedWhole :
    {W : Type 0} (out : Outcome) (s : Spool) (d : Disk) (p : Bytes) (q : List Bytes)
    → HasNewest W s d (q ++ (p ∷ []))
    → length q < size_max
    → AppendedWhole W q p s ((accept out s d).1, (accept out s d).2)
unfolding accept
accept-AppendedWhole out s d p q new b =
    let (h, n, f) = IsQueue-counters s (counted s) d refl refl refl new in
    let (e, whole) =
      enforce_bounds-EnforcedWhole out (counted s) d h (omega (arith, length-append q (p ∷ []))) in
    let (s', d') = enforce_bounds out (counted s) d in
    (
      record {
        k = e.k;
        kept = IsQueue-same s' d' (save_state out s' d').1 (save_state-file out s' d') e.kept;
        newest_stays = omega (arith, e.newest_stays, length-append q (p ∷ []));
        dropped = e.counted;
        appended = e.appended;
        committed = e.committed;
        is_open = e.is_open;
        within = elim e.within [
          | inl w ↦ inl (
              rw
                (total_bytes-same s'.segments d' (save_state out s' d').1
                  (save_state-file out s' d'))
                w)
          | inr one ↦ inr one
        ];
      },
      λ w.
          IsWholeQueue-same s' d' (save_state out s' d').1 (save_state-file out s' d')
            (whole (f w)),
    )

pub rolled-AppendedWhole :
    {W : Type 0} (s : Spool) (js : List ℕ) (p : Bytes) (q : List Bytes) (r : Spool × Disk)
    → AppendedWhole W q p (record s { segments = js }) r
    → AppendedWhole W q p s r
rolled-AppendedWhole s js p q r (a, whole) = (
  record {
    k = a.k;
    kept = a.kept;
    newest_stays = a.newest_stays;
    dropped = a.dropped;
    appended = a.appended;
    committed = a.committed;
    is_open = a.is_open;
    within = a.within;
  },
  whole,
)

pub append_accepts :
    (out : Outcome) (s : Spool) (d : Disk) (p : Bytes)
    → s.is_open ≡ true
    → Fits p
    → out.segment_opens ≡ true
    → out.segment_cut ≡ none
    → append out p s d
      ≡ accept out (record s { segments = roll s d }) (write_frame out (back 1 (roll s d)) p d)
unfolding append
append_accepts out s d p is_open hp opens whole = ground arith

append-AppendedWhole :
    (out : Outcome) (s : Spool) (d : Disk) (p : Bytes) (q : List Bytes) (h : IsQueue s d q)
    → s.is_open ≡ true
    → Fits p
    → out.segment_opens ≡ true
    → out.segment_cut ≡ none
    → length q < size_max
    → AppendedWhole (AllWhole h.tail h.gs) q p s ((append out p s d).1, (append out p s d).2)
append-AppendedWhole out s d p q h is_open hp opens whole b =
    rw (append_accepts out s d p is_open hp opens whole) (
      rolled-AppendedWhole s (roll s d) p q _ (
        accept-AppendedWhole out (record s { segments = roll s d })
          (write_frame out (back 1 (roll s d)) p d) p q (written-HasNewest out s d p h hp whole) b))

-- On an open object that holds the queue q of fewer than SIZE_MAX records, a record p whose size
-- fits 32 bits, whose segment opens and whose frame is written whole joins the queue: the new queue is q and then p without its
-- oldest k records, where k goes to the dropped counter and never reaches p, and the files are
-- within the budget or one segment is left. The object stays open. This holds whether the state file can be saved or not.
pub append-Appended :
    (out : Outcome) (s : Spool) (d : Disk) (p : Bytes) (q : List Bytes)
    → IsQueue s d q
    → s.is_open ≡ true
    → Fits p
    → out.segment_opens ≡ true
    → out.segment_cut ≡ none
    → length q < size_max
    → Appended q p s ((append out p s d).1, (append out p s d).2)
append-Appended out s d p q h is_open hp opens whole b =
    (append-AppendedWhole out s d p q h is_open hp opens whole b).0

-- The same on a queue of whole segments, which are whole behind it.
pub append-whole :
    (out : Outcome) (s : Spool) (d : Disk) (p : Bytes) (q : List Bytes)
    → IsWholeQueue s d q
    → s.is_open ≡ true
    → Fits p
    → out.segment_opens ≡ true
    → out.segment_cut ≡ none
    → length q < size_max
    → (a : Appended q p s ((append out p s d).1, (append out p s d).2)) × IsWholeQueue
        (append out p s d).1
        (append out p s d).2
        (drop a.k (q ++ (p ∷ [])))
append-whole out s d p q w is_open hp opens cut b =
    let h : IsQueue s d q = record {
      id = w.id;
      done = w.done;
      todo = w.todo;
      tail = [];
      gs = w.gs;
      laid = w.laid;
      queue = w.queue;
      clean = IsWhole-IsClean w.gs w.whole;
      fresh = w.fresh;
    } in
    let (a, f) = append-AppendedWhole out s d p q h is_open hp opens cut b in
    (a, f (record { untorn = refl; segments = w.whole }))
