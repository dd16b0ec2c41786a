-- ===== src/Report/Ending.antt =====
-- Reporter::drain of src/main.cpp over a spool of one segment: the end of its loop.
use nano_sensor.Base.{
  ℕ, ◌+◌, ◌≤◌, ◌<◌, ◌≡◌, ◌≢◌, refl, sym, ap, ◌∙◌, ◌⊎◌, true, false, List, [], ◌∷◌, ◌++◌, arith,
  length, drop,
}
use nano_sensor.Text.{Bytes}
use nano_sensor.Spool.Queue.{Spool, Disk, Outcome}
use nano_sensor.Spool.Layout.{Segment, ids, all_payloads}
use nano_sensor.Spool.Release.{Released}
use nano_sensor.Spool.Whole.{IsWholeQueue}
use nano_sensor.Spool.Crossing.{committed_by, commit-Released}
use nano_sensor.Report.Drain.{Surroundings, Limits, Drain, Next, ends, goes_on, exhausted, as_count}

-- An open object of one segment that holds the queue q.
pub record IsSingle (q : List Bytes) (s : Spool) (d : Disk) : Type 0 where
  pub holds : IsWholeQueue s d q
  pub is_open : s.is_open ≡ true
  pub one : length s.segments ≤ 1

no_segments : (gs : List Segment) → length (ids gs) ≤ 0 → all_payloads gs ≡ []
no_segments [] h = refl
no_segments (g ∷ gs) h = absurd (omega arith)

-- All records of the queue are in the cursor's segment.
some_todo :
    (s : Spool) (d : Disk) (q : List Bytes) (h : IsSingle q s d) → 0 < length q → h.holds.todo ≢ []
some_todo s d q h above e =
    let rest : all_payloads h.holds.gs ≡ [] =
      no_segments h.holds.gs (omega (arith, h.one, ap length h.holds.laid.segments)) in
    let all : h.holds.todo ++ all_payloads h.holds.gs ≡ q = h.holds.queue in
    let empty : q ≡ [] = sym all ∙ ap (λ (l : List Bytes). l ++ all_payloads h.holds.gs) e ∙ rest in
    absurd (omega (arith, above, ap length empty))

pub single_release :
    (out : Outcome) (n : ℕ) (s : Spool) (d : Disk) (q : List Bytes)
    → IsSingle q s d
    → 0 < n
    → n ≤ length q
    → Released n q s (committed_by out n s d)
single_release out n s d q h above b =
    commit-Released out s d q n h.holds (some_todo s d q h (omega (arith, above, b))) h.is_open
      above b

pub released-IsSingle :
    (n : ℕ) (q : List Bytes) (s : Spool) (d : Disk) (r : Spool × Disk)
    → IsSingle q s d
    → Released n q s r
    → IsSingle (drop n q) r.0 r.1
released-IsSingle n q s d r h released = record {
  holds = released.kept;
  is_open = released.is_open ∙ h.is_open;
  one = omega (arith, released.fewer, h.one);
}

-- What a round makes of a queue: it ends the loop, shortens the queue, or counts an attempt that is
-- below the limit and leaves the queue alone.
abbrev Progress : Limits → ℕ → List Bytes → Drain → Next → Type 0
Progress opt attempt q t (ends t') = t'.ended ≡ true
Progress opt attempt q t (goes_on a t') =
    ((a ≡ 0) × (n : ℕ) × (0 < n) × (n ≤ length q) × IsSingle (drop n q) t'.spool t'.disk)
    ⊎ ((a ≡ attempt + 1) × (exhausted opt.max_attempts a ≡ false) × IsSingle q t'.spool t'.disk)

module _ (w : Surroundings) (opt : Limits) where
  abbrev tries : ℕ
  tries = as_count opt.max_attempts
