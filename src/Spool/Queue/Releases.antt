-- ===== src/Spool/Queue/Releases.antt =====
-- commit of src/spool.cpp.
use nano_sensor.Base.{
  ℕ, zero, suc, ◌+◌, ◌-◌, not, none, some, ◌==◌, if◌then◌else◌, length, take, drop,
}
use nano_sensor.Text.{Bytes}
use nano_sensor.Spool.Frame.{magic, header_bytes, get_u32}
use nano_sensor.Spool.Queue.State.{
  not_open, Spool, Disk, Outcome, remove_segment, is_empty, without, upper_bound, Returned,
  save_state, with_disk,
}

-- The inner loop of commit over one file: the number of records passed, and of bytes. A seek past
-- the end of the file does not fail, so the size of a record is not checked.
unfoldable pub skip_loop : ℕ → ℕ → Bytes → ℕ × ℕ
skip_loop fuel zero f = (0, 0)
skip_loop zero (suc remaining) f = (0, 0)
skip_loop (suc fuel) (suc remaining) f =
    let header = take header_bytes f in
    let size = header_bytes + get_u32 (drop 4 header) in
    let (n, bytes) = skip_loop fuel remaining (drop size f) in
    let passed : ℕ × ℕ = (n + 1, size + bytes) in
    if not (length header == header_bytes)
    then (0, 0)
    else if not (get_u32 header == magic)
    then (0, 0)
    else passed

-- The cursor and the counters behind n records of `bytes` bytes.
unfoldable pub advance : ℕ → ℕ → Spool → Spool
advance n bytes s = record s {
  read_offset = s.read_offset + bytes;
  stats = record s.stats { committed = s.stats.committed + n; pending = s.stats.pending - n };
}

abbrev pub move_to : ℕ → Spool → Spool
move_to id s = record s { read_segment = id; read_offset = 0 }

-- The outer loop of commit. A round that goes on has moved the cursor to a later segment.
unfoldable pub commit_loop : Outcome → ℕ → ℕ → Spool → Disk → Spool × Disk
commit_loop out zero remaining s d = (s, d)
commit_loop out (suc fuel) zero s d = (s, d)
commit_loop out (suc fuel) (suc remaining) s d =
    let id = s.read_segment in
    let evicted : Spool × Disk = elim (upper_bound id s.segments) [
      | none ↦ (s, d)
      | some next ↦ commit_loop out fuel (suc remaining) (move_to next s) d
    ] in
    let present = λ (bytes : Bytes).
      let f = drop s.read_offset bytes in
      let (n, size) = skip_loop (length f) (suc remaining) f in
      let s' = advance n size s in
      let retired = record s' { segments = without id s'.segments } in
      let exhausted : Spool × Disk = elim (upper_bound id s.segments) [
        | none ↦ (s', d)
        | some next ↦
            commit_loop out fuel (suc remaining - n) (move_to next retired)
              (remove_segment out id d)
      ] in
      if suc remaining - n == 0 then (s', d) else if n == 0 then (s', d) else exhausted in
    if is_empty s.segments
    then (s, d)
    else elim (d.file id) [ none ↦ evicted | some bytes ↦ present bytes ]

unfoldable pub commit : Outcome → ℕ → Spool → Disk → Returned
commit out count s d =
    let (s', d') = commit_loop out (length s.segments + 1) count s d in
    if not s.is_open
    then (some not_open, s, d)
    else if count == 0
    then (none, s, d)
    else with_disk s' (save_state out s' d')
