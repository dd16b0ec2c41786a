-- ===== src/Spool/Crossing.antt =====
-- commit of src/spool.cpp over several segments.
use nano_sensor.Base.{
  ℕ, zero, suc, ◌+◌, ◌-◌, ◌≤◌, ◌<◌, ◌≡◌, ◌≢◌, refl, sym, ap, ◌∙◌, true, false, Bool-cases, inl, inr,
  some, List, [], ◌∷◌, ◌++◌, arith, length, ◌==◌, leb, length-append, take_all, drop_beyond,
}
use mathlib.Core.Path.{subst, subst₂}
use nano_sensor.Text.{Bytes}
use nano_sensor.Spool.Reading.{encode}
use nano_sensor.Spool.Queue.{
  Spool, Disk, Outcome, upper_bound, without, advance, remove_segment, commit_loop, commit,
  save_state,
}
use nano_sensor.Spool.Layout.{Segment, ids, all_payloads, IsLaid}
use nano_sensor.Spool.Commit.{commit_stops, retired, commit_moves}
use nano_sensor.Spool.Invariant.{IsFresh}
use nano_sensor.Spool.Evict.{evicted-IsLaid, removed_file}
use nano_sensor.Spool.Accept.{save_state-file}
use nano_sensor.Spool.Release.{
  advanced, Released, skips, some_segments, stops_here, without_above, length-without,
}
use nano_sensor.Spool.Invariant.{IsWhole}
use nano_sensor.Spool.Whole.{IsWholeQueue, IsWholeQueue-same}

nonempty : (ps : List Bytes) → ps ≢ [] → (length ps == 0) ≡ false
nonempty [] h = absurd (h refl)
nonempty (p ∷ ps) h = ground arith

-- What a later round releases, seen from before a segment was passed.
behind :
    (n m : ℕ) (todo rest : List Bytes) (s s' : Spool) (r : Spool × Disk)
    → s'.stats.committed ≡ s.stats.committed + length todo
    → s'.stats.dropped ≡ s.stats.dropped
    → s'.stats.appended ≡ s.stats.appended
    → s'.is_open ≡ s.is_open
    → length s'.segments ≤ length s.segments
    → n ≡ length todo + m
    → Released m rest s' r
    → Released n (todo ++ rest) s r
behind n m todo rest s s' r c d a o f e h = record {
  kept = rw (e, drop_beyond m todo rest) h.kept;
  committed = omega (arith, h.committed);
  dropped = h.dropped ∙ d;
  appended = h.appended ∙ a;
  is_open = h.is_open ∙ o;
  fewer = omega (arith, h.fewer, f);
}

module _ (out : Outcome) (fuel r : ℕ) (s : Spool) (d : Disk) (done todo : List Bytes) (g : Segment)
    (gs : List Segment) (l : IsLaid s d s.read_segment done todo [] (g ∷ gs))
    (some_todo : todo ≢ []) (beyond : length todo < suc r) where
  abbrev passed : Spool
  passed = retired (length todo) (length (encode todo)) g.id s

  passed_segments : passed.segments ≡ ids (g ∷ gs)
  unfolding advance
  passed_segments =
      ap (without s.read_segment) l.segments
      ∙ ground (arith, without_above d s.read_segment s.read_segment (g ∷ gs) (omega arith) l.chain)

  passed-IsLaid : IsLaid passed (remove_segment out s.read_segment d) g.id [] g.payloads g.tail gs
  passed-IsLaid =
      evicted-IsLaid out s d s.read_segment done todo [] g gs l passed passed_segments refl refl

  nonzero : (length todo == 0) ≡ false
  nonzero = nonempty todo some_todo

  next_is : upper_bound s.read_segment s.segments ≡ some g.id
  unfolding upper_bound
  next_is = ground (arith, l.segments, l.chain.0)

  moves_on :
      commit_loop out (suc fuel) (suc r) s d
      ≡ commit_loop out fuel (suc r - length todo) passed (remove_segment out s.read_segment d)
  moves_on =
      commit_moves out fuel r s d (encode (done ++ todo) ++ []) (length todo) (length (encode todo))
        (some_segments s d done todo (g ∷ gs) l) l.file
        (skips s d done todo (g ∷ gs) l (suc r) ∙ rw (take_all (suc r) todo (omega arith))) g.id
        (ground arith) nonzero next_is

module _ (out : Outcome) where
  commit_loop-Released :
      (gs : List Segment) (fuel r : ℕ) (s : Spool) (d : Disk) (done todo : List Bytes)
      → IsLaid s d s.read_segment done todo [] gs
      → IsFresh d s.read_segment gs
      → IsWhole gs
      → todo ≢ []
      → suc r ≤ length (todo ++ all_payloads gs)
      → length gs < fuel
      → Released (suc r) (todo ++ all_payloads gs) s (commit_loop out fuel (suc r) s d)
  commit_loop-Released gs zero r s d done todo l f w some_todo h hf = absurd (omega arith)
  commit_loop-Released [] (suc fuel) r s d done todo l f w some_todo h hf =
      stops_here s d done todo [] l out fuel r (omega (arith, h, length-append todo [])) f w
  commit_loop-Released (g ∷ gs) (suc fuel) r s d done todo l f (t, p, w) some_todo h hf =
      elim (Bool-cases (leb (suc r) (length todo))) [
        | inl here ↦ stops_here s d done todo (g ∷ gs) l out fuel r (ground arith) f (t, p, w)
        | inr later ↦
            let far : length todo < suc r = ground arith in
            let r' : ℕ = r - length todo in
            let less : suc r - length todo ≡ suc r' = omega arith in
            let d' = remove_segment out s.read_segment d in
            let s' = passed out fuel r s d done todo g gs l some_todo far in
            let laid : IsLaid s' d' g.id [] g.payloads g.tail gs =
              passed-IsLaid out fuel r s d done todo g gs l some_todo far in
            rw (moves_on out fuel r s d done todo g gs l some_todo far, less)
              (behind (suc r) (suc r') todo (all_payloads (g ∷ gs)) s s' _ (unfold advance in refl)
                (unfold advance in refl) (unfold advance in refl) (unfold advance in refl)
                (unfold advance in length-without s.read_segment s.segments) (omega arith)
                (commit_loop-Released gs fuel r' s' d' [] g.payloads
                  (subst (λ (u : Bytes). IsLaid s' d' g.id [] g.payloads u gs) t laid)
                  (λ j above. removed_file out s.read_segment j d (f j above)) w p
                  (omega (arith, length-append todo (all_payloads (g ∷ gs)))) (omega arith)))
      ]

length-ids : (gs : List Segment) → length (ids gs) ≡ length gs
length-ids [] = refl
length-ids (g ∷ gs) = ap suc (length-ids gs)

-- The pair of object and disk behind save_state.
abbrev pub saved : Outcome → Spool × Disk → Spool × Disk
saved out r = (r.0, (save_state out r.0 r.1).1)

-- The state file is no segment file, so a release holds behind save_state too.
Released-saved :
    (out : Outcome) (n : ℕ) (q : List Bytes) (s : Spool) (r : Spool × Disk)
    → Released n q s r
    → Released n q s (saved out r)
Released-saved out n q s r h = record {
  kept = IsWholeQueue-same r.0 r.1 (save_state out r.0 r.1).1 (save_state-file out r.0 r.1) h.kept;
  committed = h.committed;
  dropped = h.dropped;
  appended = h.appended;
  is_open = h.is_open;
  fewer = h.fewer;
}

-- The pair of object and disk behind commit.
abbrev pub committed_by : Outcome → ℕ → Spool → Disk → Spool × Disk
committed_by out n s d = ((commit out n s d).1, (commit out n s d).2)

pub commit_runs :
    (out : Outcome) (r : ℕ) (s : Spool) (d : Disk)
    → s.is_open ≡ true
    → committed_by out (suc r) s d ≡ saved out (commit_loop out (length s.segments + 1) (suc r) s d)
unfolding commit
commit_runs out r s d h = ground arith

pub at_cursor :
    (s : Spool) (d : Disk) (id : ℕ) (done todo : List Bytes) (t : Bytes) (gs : List Segment)
    → IsLaid s d id done todo t gs
    → t ≡ []
    → IsLaid s d s.read_segment done todo [] gs
at_cursor s d id done todo t gs l e =
    subst₂ (λ (i : ℕ) (u : Bytes). IsLaid s d i done todo u gs) (sym l.cursor) e l

-- On an open object that holds the queue q, where a record stands behind the cursor in its segment
-- and every segment holds a record and no torn one, commit of a positive count, at most the length
-- of q, releases exactly the oldest count records: the new queue is q without them, and they are
-- added to the committed counter. This holds across segments, whether their files can be removed
-- and the state file saved or not.
pub commit-Released :
    (out : Outcome) (s : Spool) (d : Disk) (q : List Bytes) (count : ℕ) (h : IsWholeQueue s d q)
    → h.todo ≢ []
    → s.is_open ≡ true
    → 0 < count
    → count ≤ length q
    → Released count q s (committed_by out count s d)
commit-Released out s d q zero h some_todo is_open pos b = absurd (omega arith)
commit-Released out s d q (suc r) h some_todo is_open pos b = rw (commit_runs out r s d is_open) (
    Released-saved out (suc r) q s _ (
      subst
        (λ (p : List Bytes).
          Released (suc r) p s (commit_loop out (length s.segments + 1) (suc r) s d))
        h.queue
        (commit_loop-Released out h.gs (length s.segments + 1) r s d h.done h.todo
          (at_cursor s d h.id h.done h.todo [] h.gs h.laid refl)
          (subst (λ (i : ℕ). IsFresh d i h.gs) (sym h.laid.cursor) h.fresh) h.whole some_todo
          (rw h.queue b) (omega (arith, ap length h.laid.segments, length-ids h.gs)))))

loop_none :
    (out : Outcome) (fuel r : ℕ) (s : Spool) (d : Disk) (done : List Bytes) (gs : List Segment)
    → IsLaid s d s.read_segment done [] [] gs
    → IsFresh d s.read_segment gs
    → IsWhole gs
    → Released 0 (all_payloads gs) s (commit_loop out (suc fuel) (suc r) s d)
loop_none out fuel r s d done gs l f w =
    rw
      (commit_stops out fuel r s d (encode (done ++ []) ++ []) 0 (length (encode []))
        (some_segments s d done [] gs l) l.file (skips s d done [] gs l (suc r)) (ground arith))
      (advanced s d done [] gs l 0 0 f w (omega arith) refl)

-- With no record between the cursor and the end of its segment a commit releases nothing.
pub commit_none-Released :
    (out : Outcome) (s : Spool) (d : Disk) (q : List Bytes) (r : ℕ) (h : IsWholeQueue s d q)
    → h.todo ≡ []
    → s.is_open ≡ true
    → Released 0 q s (committed_by out (suc r) s d)
commit_none-Released out s d q r h none_left is_open =
    let fuel : length s.segments + 1 ≡ suc (length s.segments) = omega arith in
    let l : IsLaid s d h.id h.done [] [] h.gs =
      subst (λ (t : List Bytes). IsLaid s d h.id h.done t [] h.gs) none_left h.laid in
    let e : all_payloads h.gs ≡ q =
      subst (λ (t : List Bytes). t ++ all_payloads h.gs ≡ q) none_left h.queue in
    rw (commit_runs out r s d is_open) (
      Released-saved out 0 q s _ (
        rw fuel (
          subst
            (λ (p : List Bytes).
              Released 0 p s (commit_loop out (suc (length s.segments)) (suc r) s d))
            e
            (loop_none out (length s.segments) r s d h.done h.gs
              (at_cursor s d h.id h.done [] [] h.gs l refl)
              (subst (λ (i : ℕ). IsFresh d i h.gs) (sym h.laid.cursor) h.fresh) h.whole))))
