-- ===== src/Spool/Bounds.antt =====
-- The loop of enforce_bounds of src/spool.cpp.
use nano_sensor.Base.{
  ℕ, ◌+◌, ◌≤◌, ◌≡◌, refl, sym, ap, ◌⊎◌, inl, inr, true, false, Bool-cases, List, [], ◌∷◌, ◌++◌,
  arith, length, ltb, drop, length-append, drop_beyond,
}
use mathlib.Core.Path.{subst₂}
use nano_sensor.Text.{Bytes}
use nano_sensor.Spool.Queue.{
  Spool, Disk, Outcome, remove_segment, size_max, total_bytes, evict, enforce_loop, enforce_bounds,
}
use nano_sensor.Spool.Layout.{Segment, ids, all_payloads, IsLaid}
use nano_sensor.Spool.Evict.{evicted, evicted-IsLaid, evict-IsLaid, removed_file}
use nano_sensor.Spool.Invariant.{newest, IsFresh, IsClean, IsQueue, AllWhole}
use nano_sensor.Spool.Whole.{IsWholeQueue, IsQueue-whole}

newest-le :
    (todo : List Bytes) (gs : List Segment)
    → length (newest todo gs) ≤ length (todo ++ all_payloads gs)
newest-le todo [] = omega (arith, length-append todo [])
newest-le todo (g ∷ gs) =
    omega (arith, newest-le g.payloads gs, length-append todo (all_payloads (g ∷ gs)))

-- What enforce_bounds leaves of a queue q, from the object s to the object and disk of `r`: it
-- drops the oldest k payloads, adds k to the counter, keeps the newest segment and the rest of the
-- object, and ends within the budget or with one segment.
pub record Enforced (budget n : ℕ) (q : List Bytes) (s : Spool) (r : Spool × Disk) : Type 0 where
  pub k : ℕ
  pub kept : IsQueue r.0 r.1 (drop k q)
  pub counted : r.0.stats.dropped ≡ s.stats.dropped + k
  pub newest_stays : k + n ≤ length q
  pub within : (total_bytes r.0.segments r.1 ≤ budget) ⊎ (length r.0.segments ≡ 1)
  pub committed : r.0.stats.committed ≡ s.stats.committed
  pub appended : r.0.stats.appended ≡ s.stats.appended
  pub is_open : r.0.is_open ≡ s.is_open

-- And its segments are whole if W.
abbrev pub EnforcedWhole : Type 0 → ℕ → ℕ → List Bytes → Spool → Spool × Disk → Type 0
EnforcedWhole W budget n q s r =
    (e : Enforced budget n q s r) × (W → IsWholeQueue r.0 r.1 (drop e.k q))

-- Where the loop stops nothing is dropped.
stays :
    (budget : ℕ) (s : Spool) (d : Disk) (id : ℕ) (done todo : List Bytes) (t : Bytes)
    (gs : List Segment)
    → IsLaid s d id done todo t gs
    → IsClean t gs
    → IsFresh d id gs
    → (total_bytes s.segments d ≤ budget) ⊎ (length s.segments ≡ 1)
    → EnforcedWhole
        (AllWhole t gs)
        budget
        (length (newest todo gs))
        (todo ++ all_payloads gs)
        s
        (s, d)
stays budget s d id done todo t gs l c f w =
    let h : IsQueue s d (todo ++ all_payloads gs) = record {
      id = id;
      done = done;
      todo = todo;
      tail = t;
      gs = gs;
      laid = l;
      queue = refl;
      clean = c;
      fresh = f;
    } in
    (
      record {
        k = 0;
        kept = h;
        counted = omega arith;
        newest_stays = omega (arith, newest-le todo gs);
        within = w;
        committed = refl;
        appended = refl;
        is_open = refl;
      },
      IsQueue-whole s d h,
    )

later_whole :
    (t : Bytes) (g : Segment) (gs : List Segment) → AllWhole t (g ∷ gs) → AllWhole g.tail gs
later_whole t g gs w = let (u, n, v) = w.segments in record { untorn = u; segments = v }

-- What the later rounds do behind an eviction, seen from before it.
behind :
    (budget n : ℕ) (s : Spool) (t : Bytes) (g : Segment) (gs : List Segment) (todo : List Bytes)
    (r : Spool × Disk)
    → EnforcedWhole
        (AllWhole g.tail gs)
        budget
        n
        (all_payloads (g ∷ gs))
        (evicted s g gs (length todo))
        r
    → EnforcedWhole (AllWhole t (g ∷ gs)) budget n (todo ++ all_payloads (g ∷ gs)) s r
behind budget n s t g gs todo r (h, whole) = (
  record {
    k = length todo + h.k;
    kept = rw (drop_beyond h.k todo (all_payloads (g ∷ gs))) h.kept;
    counted = omega (arith, h.counted);
    newest_stays = omega (arith, h.newest_stays, length-append todo (all_payloads (g ∷ gs)));
    within = h.within;
    committed = h.committed;
    appended = h.appended;
    is_open = h.is_open;
  },
  λ w. rw (drop_beyond h.k todo (all_payloads (g ∷ gs))) (whole (later_whole t g gs w)),
)

module _ (out : Outcome) (budget : ℕ) where
  loop_stops :
      (id j : ℕ) (js : List ℕ) (s : Spool) (d : Disk)
      → ltb budget (total_bytes (id ∷ j ∷ js) d) ≡ false
      → enforce_loop out budget (id ∷ j ∷ js) s d ≡ (s, d)
  unfolding enforce_loop
  loop_stops id j js s d h = rw (h, enforce_loop)

  loop_evicts :
      (id j : ℕ) (js : List ℕ) (s : Spool) (d : Disk)
      → ltb budget (total_bytes (id ∷ j ∷ js) d) ≡ true
      → enforce_loop out budget (id ∷ j ∷ js) s d
        ≡ enforce_loop out budget
            (j ∷ js)
            (evict out id (j ∷ js) s d).0
            (evict out id (j ∷ js) s d).1
  unfolding enforce_loop
  loop_evicts id j js s d h = rw (h, enforce_loop)

  enforce_loop-EnforcedWhole :
      (s : Spool) (d : Disk) (id : ℕ) (done todo : List Bytes) (t : Bytes) (gs : List Segment)
      → IsLaid s d id done todo t gs
      → IsClean t gs
      → IsFresh d id gs
      → length (todo ++ all_payloads gs) ≤ size_max
      → EnforcedWhole
          (AllWhole t gs)
          budget
          (length (newest todo gs))
          (todo ++ all_payloads gs)
          s
          (enforce_loop out budget (id ∷ ids gs) s d)
  enforce_loop-EnforcedWhole s d id done todo t [] l c f b =
      unfold enforce_loop in stays budget s d id done todo t [] l c f (inr (ap length l.segments))
  enforce_loop-EnforcedWhole s d id done todo t (g ∷ gs) l c f b =
      elim (Bool-cases (ltb budget (total_bytes (id ∷ ids (g ∷ gs)) d))) [
        | inl over ↦
            rw (loop_evicts id g.id (ids gs) s d over, evict-IsLaid out s d id done todo t g gs l b)
              (behind budget (length (newest g.payloads gs)) s t g gs todo _ (
                enforce_loop-EnforcedWhole (evicted s g gs (length todo)) (remove_segment out id d)
                  g.id [] g.payloads g.tail gs
                  (evicted-IsLaid out s d id done todo t g gs l (evicted s g gs (length todo)) refl
                    refl refl)
                  c (λ j above. removed_file out id j d (f j above))
                  (omega (arith, length-append todo (all_payloads (g ∷ gs))))))
        | inr fits ↦ rw (loop_stops id g.id (ids gs) s d fits) (
            stays budget s d id done todo t (g ∷ gs) l c f
              (inl (ground (arith, ap (λ (js : List ℕ). total_bytes js d) l.segments))))
      ]

pub enforce_bounds-EnforcedWhole :
    (out : Outcome) (s : Spool) (d : Disk) {q : List Bytes} (h : IsQueue s d q)
    → length q ≤ size_max
    → EnforcedWhole
        (AllWhole h.tail h.gs)
        s.cfg.max_bytes
        (length (newest h.todo h.gs))
        q
        s
        (enforce_bounds out s d)
unfolding enforce_bounds
enforce_bounds-EnforcedWhole out s d {q} h b =
    let whole =
      enforce_loop-EnforcedWhole out s.cfg.max_bytes s d h.id h.done h.todo h.tail h.gs h.laid
        h.clean h.fresh (rw h.queue b) in
    subst₂
      (λ (p : List Bytes) (js : List ℕ).
        EnforcedWhole (AllWhole h.tail h.gs) s.cfg.max_bytes (length (newest h.todo h.gs)) p s
          (enforce_loop out s.cfg.max_bytes js s d))
      h.queue (sym h.laid.segments) whole

-- enforce_bounds keeps the invariant: on an object and a directory that hold the queue q, of at most
-- SIZE_MAX records, it drops the oldest payloads, a whole number k of them, adds k to the
-- counter of dropped records, leaves the newest segment, and ends within the budget or with one
-- segment. This holds whether the files can be removed or not.
pub enforce_bounds-Enforced :
    (out : Outcome) (s : Spool) (d : Disk) {q : List Bytes} (h : IsQueue s d q)
    → length q ≤ size_max
    → Enforced s.cfg.max_bytes (length (newest h.todo h.gs)) q s (enforce_bounds out s d)
enforce_bounds-Enforced out s d h b = (enforce_bounds-EnforcedWhole out s d h b).0
