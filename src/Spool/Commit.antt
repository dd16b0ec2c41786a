-- ===== src/Spool/Commit.antt =====
-- One round of the outer loop of commit of src/spool.cpp.
use nano_sensor.Base.{
  ℕ, suc, ◌-◌, ◌≡◌, Bool, true, false, some, arith, length, drop, ◌==◌, ◌||◌, if◌then◌else◌,
}
use nano_sensor.Text.{Bytes}
use nano_sensor.Spool.Queue.{
  Spool, Disk, Outcome, skip_loop, upper_bound, without, advance, move_to, remove_segment,
  commit_loop, is_empty,
}

-- The object behind a segment that was passed whole.
abbrev pub retired : ℕ → ℕ → ℕ → Spool → Spool
retired n size next s =
    let s' = advance n size s in
    move_to next (record s' { segments = without s.read_segment s'.segments })

pick {ℓ} :
    {A : Type ℓ} (b c : Bool) (x y : A)
    → (b || c) ≡ true
    → (if b then x else if c then x else y) ≡ x
pick b c x y h = ground arith

module _ (out : Outcome) (fuel r : ℕ) (s : Spool) (d : Disk) (bytes : Bytes) (n size : ℕ)
    (some_segments : is_empty s.segments ≡ false) (file : d.file s.read_segment ≡ some bytes)
    (skips : skip_loop (length (drop s.read_offset bytes)) (suc r) (drop s.read_offset bytes)
      ≡ (n, size)) where
  -- A round that has passed all records, or none, ends the loop.
  pub commit_stops :
      ((suc r - n == 0) || (n == 0)) ≡ true
      → commit_loop out (suc fuel) (suc r) s d ≡ (advance n size s, d)
  unfolding commit_loop
  commit_stops h =
      rw (some_segments, file, commit_loop)
        (rw (skips, commit_loop) (pick (suc r - n == 0) (n == 0) _ _ h))

  pub commit_moves :
      (next : ℕ)
      → (suc r - n == 0) ≡ false
      → (n == 0) ≡ false
      → upper_bound s.read_segment s.segments ≡ some next
      → commit_loop out (suc fuel) (suc r) s d
        ≡ commit_loop out fuel
            (suc r - n)
            (retired n size next s)
            (remove_segment out s.read_segment d)
  unfolding commit_loop
  commit_moves next h0 h1 up =
      rw (some_segments, file, commit_loop)
        (rw (up, commit_loop) (rw (skips, commit_loop) (rw (h0, h1))))
