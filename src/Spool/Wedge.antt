-- ===== src/Spool/Wedge.antt =====
-- commit of src/spool.cpp with a cursor at the end of a segment.
use nano_sensor.Base.{
  ℕ, zero, suc, ◌+◌, ◌-◌, ◌<◌, ◌≡◌, ◌≢◌, refl, sym, ap, ◌∙◌, true, List, [], ◌∷◌, ◌++◌, arith,
  length, take, take_all, length-append,
}
use mathlib.Core.List.{append-nil}
use nano_sensor.Text.{Bytes}
use nano_sensor.Spool.Reading.{encode}
use nano_sensor.Spool.Queue.{Spool, Disk, Outcome, advance, save_state, commit_loop, commit}
use nano_sensor.Spool.Layout.{Segment, all_payloads, IsLaid, encode-append}
use nano_sensor.Spool.Commit.{commit_stops}
use nano_sensor.Spool.Invariant.{IsQueue, IsLaid-same}
use nano_sensor.Spool.Accept.{save_state-file}
use nano_sensor.Spool.Release.{skips, some_segments}
use nano_sensor.Spool.Crossing.{saved, committed_by, commit_runs, at_cursor}

-- An open object that holds q, with no record and nothing else between the cursor and the end of
-- its segment, and n records committed so far.
pub record IsStuck (n : ℕ) (q : List Bytes) (r : Spool × Disk) : Type 0 where
  pub id : ℕ
  pub done : List Bytes
  pub gs : List Segment
  pub laid : IsLaid r.0 r.1 id done [] [] gs
  pub queue : all_payloads gs ≡ q
  pub is_open : r.0.is_open ≡ true
  pub committed : r.0.stats.committed ≡ n

-- The state file is no part of it.
IsStuck-saved :
    (out : Outcome) {n : ℕ} {q : List Bytes} (r : Spool × Disk)
    → IsStuck n q r
    → IsStuck n q (saved out r)
IsStuck-saved out r h = record {
  id = h.id;
  done = h.done;
  gs = h.gs;
  laid =
      IsLaid-same r.0 r.1 (save_state out r.0 r.1).1 h.id h.done [] [] h.gs
        (save_state-file out r.0 r.1) h.laid;
  queue = h.queue;
  is_open = h.is_open;
  committed = h.committed;
}

commit_none : (out : Outcome) (s : Spool) (d : Disk) → committed_by out 0 s d ≡ (s, d)
unfolding commit
commit_none out s d = ground arith

length-nonempty : (ps : List Bytes) → ps ≢ [] → 0 < length ps
length-nonempty [] h = absurd (h refl)
length-nonempty (p ∷ ps) h = omega arith

module _ (out : Outcome) where
  loop-IsStuck :
      (fuel r n : ℕ) (q : List Bytes) (s : Spool) (d : Disk)
      → IsStuck n q (s, d)
      → IsStuck n q (commit_loop out fuel (suc r) s d)
  loop-IsStuck zero r n q s d h = unfold commit_loop in h
  loop-IsStuck (suc fuel) r n q s d h =
      let l = at_cursor s d h.id h.done [] [] h.gs h.laid refl in
      rw
        (commit_stops out fuel r s d (encode (h.done ++ []) ++ []) 0 (length (encode []))
          (some_segments s d h.done [] h.gs l) l.file (skips s d h.done [] h.gs l (suc r))
          (ground arith))
        (unfold advance encode in
          record {
            id = h.id;
            done = h.done;
            gs = h.gs;
            laid = record {
              segments = h.laid.segments;
              cursor = h.laid.cursor;
              offset = omega (arith, h.laid.offset);
              file = h.laid.file;
              is_tail = h.laid.is_tail;
              fits = tt;
              chain = h.laid.chain;
            };
            queue = h.queue;
            is_open = h.is_open;
            committed = omega (arith, h.committed);
          })

  pub commit-IsStuck :
      (count n : ℕ) (q : List Bytes) (s : Spool) (d : Disk)
      → IsStuck n q (s, d)
      → IsStuck n q (committed_by out count s d)
  commit-IsStuck zero n q s d h = rw (commit_none out s d) h
  commit-IsStuck (suc r) n q s d h =
      rw (commit_runs out r s d h.is_open)
        (IsStuck-saved out _ (loop-IsStuck (length s.segments + 1) r n q s d h))

  -- The object and the directory behind one commit for each count.
  abbrev pub commit_all : List ℕ → Spool × Disk → Spool × Disk
  commit_all [] r = r
  commit_all (n ∷ ns) r = commit_all ns (committed_by out n r.0 r.1)

  commit_all-IsStuck :
      (counts : List ℕ) (n : ℕ) (q : List Bytes) (r : Spool × Disk)
      → IsStuck n q r
      → IsStuck n q (commit_all counts r)
  commit_all-IsStuck [] n q r h = h
  commit_all-IsStuck (c ∷ counts) n q r h =
      commit_all-IsStuck counts n q (committed_by out c r.0 r.1) (commit-IsStuck c n q r.0 r.1 h)

  -- The count that ends at the end of the cursor's segment.
  loop_ends :
      (r : ℕ) (s : Spool) (d : Disk) (done todo : List Bytes) (gs : List Segment)
      → IsLaid s d s.read_segment done todo [] gs
      → s.is_open ≡ true
      → suc r ≡ length todo
      → IsStuck
          (s.stats.committed + suc r)
          (all_payloads gs)
          (commit_loop out (length s.segments + 1) (suc r) s d)
  loop_ends r s d done todo gs l is_open e =
      let fuel : length s.segments + 1 ≡ suc (length s.segments) = omega arith in
      let size : ℕ = length (encode (take (suc r) todo)) in
      let n : ℕ = length (take (suc r) todo) in
      let all : take (suc r) todo ≡ todo = take_all (suc r) todo (omega arith) in
      let passed : n ≡ suc r = ap length all ∙ sym e in
      rw
        (
          fuel,
          commit_stops out (length s.segments) r s d (encode (done ++ todo) ++ []) n size
              (some_segments s d done todo gs l) l.file (skips s d done todo gs l (suc r))
              (ground (arith, passed)),
        )
        (unfold advance in
          record {
            id = s.read_segment;
            done = done ++ todo;
            gs = gs;
            laid = record {
              segments = l.segments;
              cursor = refl;
              offset = omega (
                arith,
                l.offset,
                ap (λ (ps : List Bytes). length (encode ps)) all,
                ap length (encode-append done todo),
                length-append (encode done) (encode todo),
              );
              file = rw (append-nil (done ++ todo)) l.file;
              is_tail = l.is_tail;
              fits = tt;
              chain = l.chain;
            };
            queue = refl;
            is_open = is_open;
            committed = omega (arith, passed);
          })

  -- On an open object that holds a queue, let a commit release exactly the records that are left in
  -- the cursor's segment, whose frames end the file. Whatever counts are committed after it, no
  -- further record is released: the committed counter stays where this commit put it, and the
  -- records of the later segments are still all in the queue.
  pub commit-wedges :
      (counts : List ℕ) (s : Spool) (d : Disk) (q : List Bytes) (h : IsQueue s d q)
      → h.tail ≡ []
      → h.todo ≢ []
      → s.is_open ≡ true
      → IsStuck
          (s.stats.committed + length h.todo)
          (all_payloads h.gs)
          (commit_all counts (committed_by out (length h.todo) s d))
  commit-wedges counts s d q h t some_todo is_open =
      let r : ℕ = length h.todo - 1 in
      let e : suc r ≡ length h.todo = omega (arith, length-nonempty h.todo some_todo) in
      commit_all-IsStuck counts (s.stats.committed + length h.todo) (all_payloads h.gs) _ (
        rw (← e, commit_runs out r s d is_open)
          (IsStuck-saved out _ (
            loop_ends r s d h.done h.todo h.gs
              (at_cursor s d h.id h.done h.todo h.tail h.gs h.laid t) is_open e)))
