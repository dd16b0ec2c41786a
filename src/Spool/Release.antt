-- ===== src/Spool/Release.antt =====
-- commit of src/spool.cpp within the segment of the cursor.
use nano_sensor.Base.{
  ℕ, zero, suc, ◌+◌, ◌≤◌, ◌≡◌, refl, sym, ap, ◌∙◌, false, inl, List, [], ◌∷◌, ◌++◌, arith, length,
  take, drop, All, length-append, length-take, take-append-drop, drop_short,
}
use mathlib.Core.List.{append_assoc, append-nil}
use nano_sensor.Text.{Bytes}
use nano_sensor.Spool.Codec.{Fits}
use nano_sensor.Spool.Reading.{encode, length-encode-ge}
use nano_sensor.Spool.Queue.{
  Spool, Disk, Outcome, skip_loop, without, advance, commit_loop, is_empty,
}
use nano_sensor.Spool.Layout.{Segment, Chain, ids, all_payloads, IsLaid, encode-append, drop_done}
use nano_sensor.Spool.Skip.{skip_loop-encode}
use nano_sensor.Spool.Commit.{commit_stops}
use nano_sensor.Spool.Invariant.{IsFresh, IsWhole}
use nano_sensor.Spool.Whole.{IsWholeQueue}

All-drop : (n : ℕ) (ps : List Bytes) → All Fits ps → All Fits (drop n ps)
All-drop zero ps h = h
All-drop (suc n) [] h = tt
All-drop (suc n) (p ∷ ps) h = All-drop n ps h.1

-- What the release of n records leaves of the queue q.
pub record Released (n : ℕ) (q : List Bytes) (s : Spool) (r : Spool × Disk) : Type 0 where
  pub kept : IsWholeQueue r.0 r.1 (drop n q)
  pub committed : r.0.stats.committed ≡ s.stats.committed + n
  pub dropped : r.0.stats.dropped ≡ s.stats.dropped
  pub appended : r.0.stats.appended ≡ s.stats.appended
  pub is_open : r.0.is_open ≡ s.is_open
  pub fewer : length r.0.segments ≤ length s.segments

pub length-without : (id : ℕ) (js : List ℕ) → length (without id js) ≤ length js
length-without id [] = omega arith
length-without id (j ∷ js) = ground (arith, length-without id js)

pub without_above :
    (d : Disk) (id k : ℕ) (gs : List Segment) → id ≤ k → Chain d k gs → without id (ids gs) ≡ ids gs
without_above d id k [] h c = refl
without_above d id k (g ∷ gs) h (above, file, tail, fits, chain) =
    ground (arith, without_above d id g.id gs (omega arith) chain)

module _ (s : Spool) (d : Disk) (done todo : List Bytes) (gs : List Segment)
    (l : IsLaid s d s.read_segment done todo [] gs) where
  left : drop s.read_offset (encode (done ++ todo) ++ []) ≡ encode todo
  left = rw l.offset (drop_done done todo [] ∙ append-nil (encode todo))

  pub skips :
      (n : ℕ)
      → skip_loop
          (length (drop s.read_offset (encode (done ++ todo) ++ [])))
          n
          (drop s.read_offset (encode (done ++ todo) ++ []))
        ≡ (length (take n todo), length (encode (take n todo)))
  skips n = rw left (skip_loop-encode (length (encode todo)) n todo (length-encode-ge todo) l.fits)

  -- The cursor n records further in its segment.
  pub advanced :
      (n m : ℕ)
      → IsFresh d s.read_segment gs
      → IsWhole gs
      → n ≤ length todo
      → m ≡ n
      → Released n (todo ++ all_payloads gs) s (advance m (length (encode (take n todo))) s, d)
  unfolding advance
  advanced n m f w h e = record {
    kept = record {
      id = s.read_segment;
      done = done ++ take n todo;
      todo = drop n todo;
      gs = gs;
      laid = record {
        segments = l.segments;
        cursor = refl;
        offset = omega (
          arith,
          l.offset,
          ap length (encode-append done (take n todo)),
          length-append (encode done) (encode (take n todo)),
        );
        file = rw (append_assoc, take-append-drop n todo) l.file;
        is_tail = inl refl;
        fits = All-drop n todo l.fits;
        chain = l.chain;
      };
      queue = sym (drop_short n todo (all_payloads gs) h);
      whole = w;
      fresh = f;
    };
    committed = omega (arith, e);
    dropped = refl;
    appended = refl;
    is_open = refl;
    fewer = omega arith;
  }

  pub some_segments : is_empty s.segments ≡ false
  some_segments = ground (arith, l.segments)

  -- All records asked for are in the cursor's segment.
  pub stops_here :
      (out : Outcome) (fuel r : ℕ)
      → suc r ≤ length todo
      → IsFresh d s.read_segment gs
      → IsWhole gs
      → Released (suc r) (todo ++ all_payloads gs) s (commit_loop out (suc fuel) (suc r) s d)
  stops_here out fuel r h f w =
      let n = length (take (suc r) todo) in
      let all : n ≡ suc r = omega (arith, length-take (suc r) todo) in
      rw
        (commit_stops out fuel r s d (encode (done ++ todo) ++ []) n
          (length (encode (take (suc r) todo))) some_segments l.file (skips (suc r))
          (ground (arith, all)))
        (advanced (suc r) n f w h all)
