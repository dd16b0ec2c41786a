-- ===== src/Spool/Queue/Writes.antt =====
-- append of src/spool.cpp.
use nano_sensor.Base.{ℕ, ◌+◌, not, none, some, List, [], ◌∷◌, ◌++◌, ltb, leb, if◌then◌else◌, length}
use nano_sensor.Text.{Bytes}
use nano_sensor.Spool.Frame.{frame}
use nano_sensor.Spool.Queue.State.{
  not_open, too_large, cannot_open_segment, append_failed, Spool, Disk, Outcome, update, file_size,
  content, back, is_empty, Returned, cut, save_state, with_disk,
}
use nano_sensor.Spool.Queue.Reads.{enforce_bounds}

-- The ids in the object after a roll, if the active segment is full; the last one is written.
unfoldable pub roll : Spool → Disk → List ℕ
roll s d =
    let ids = if is_empty s.segments then 1 ∷ [] else s.segments in
    let active = back 1 ids in
    if leb s.cfg.segment_bytes (file_size d active) then ids ++ ((active + 1) ∷ []) else ids

-- The frame at the end of a segment file, all of it or a prefix.
unfoldable pub write_frame : Outcome → ℕ → Bytes → Disk → Disk
write_frame out id payload d = record d {
  file = update d.file id (some (content d id ++ cut out.segment_cut (frame payload)));
}

-- The counters after a record that reached the file, the bounds and the state file.
unfoldable pub accept : Outcome → Spool → Disk → Returned
accept out s d =
    let s' = record s {
      next_sequence = s.next_sequence + 1;
      stats = record s.stats { appended = s.stats.appended + 1; pending = s.stats.pending + 1 };
    } in
    let (s'', d') = enforce_bounds out s' d in with_disk s'' (save_state out s'' d')

unfoldable pub append : Outcome → Bytes → Spool → Disk → Returned
append out payload s d =
    let ids = roll s d in
    let s' = record s { segments = ids } in
    let d' = write_frame out (back 1 ids) payload d in
    if not s.is_open
    then (some not_open, s, d)
    else if ltb 0xFFFFFFFF (length payload)
    then (some too_large, s, d)
    else if not out.segment_opens
    then (some cannot_open_segment, s', d)
    else elim out.segment_cut [ none ↦ accept out s' d' | some n ↦ (some append_failed, s', d') ]
