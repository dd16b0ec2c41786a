-- ===== src/Spool/Opening.antt =====
-- Spool::open of src/spool.cpp: the scan of the directory and the state file. The names in the
-- directory are an argument.
use nano_sensor.Base.{
  ℕ, true, false, not, ◌&&◌, ◌||◌, Option, none, some, List, [], ◌∷◌, ltb, leb, ◌==◌, if◌then◌else◌,
  length, drop,
}
use nano_sensor.Text.{Bytes, codes, starts_with, drop_while}
use nano_sensor.Spool.StateFile.{Stream, Cursor, is_space, extract_signed, parse_cursor}
use nano_sensor.Spool.Queue.{
  Config, Spool, Disk, cannot_create_directory, cannot_scan, Outcome, Returned, is_empty, front,
  pending_count, set_pending,
}

-- std::strtoull in base 10: white space, a sign, digits; 0 without digits.
abbrev pub strtoull_from : Bytes → ℕ
strtoull_from [] = 0
strtoull_from (c ∷ cs) = (extract_signed c cs (c ∷ cs)).1

unfoldable pub strtoull : Bytes → ℕ
strtoull text = strtoull_from (drop_while is_space text)

-- The id in the name of a directory entry; none where the loop goes on to the next entry.
unfoldable pub entry_id : Bytes → Option ℕ
entry_id name =
    let id = strtoull (drop 4 name) in
    if not (starts_with (codes "seg-") name) || ltb (length name) 8
    then none
    else if ltb 0 id
    then some id
    else none

-- std::sort
unfoldable pub insert_sorted : ℕ → List ℕ → List ℕ
insert_sorted id [] = id ∷ []
insert_sorted id (j ∷ js) =
    let rest = insert_sorted id js in if leb id j then id ∷ j ∷ js else j ∷ rest

unfoldable pub entry_ids : List Bytes → List ℕ
entry_ids [] = []
entry_ids (name ∷ names) = elim (entry_id name) [
  | none ↦ entry_ids names
  | some id ↦ id ∷ entry_ids names
]

unfoldable pub sort : List ℕ → List ℕ
sort [] = []
sort (id ∷ ids) = insert_sorted id (sort ids)

unfoldable pub scan_segments : List Bytes → Spool → Spool
scan_segments names s = record s { segments = sort (entry_ids names) }

-- The members before the state file is read.
abbrev pub reset_cursor : Spool → Spool
reset_cursor s = record s { read_segment = front 1 s.segments; read_offset = 0; next_sequence = 1 }

-- f.good() || f.eof()
abbrev pub take_cursor : Stream × Cursor → Spool → Spool
take_cursor (f, c) s =
    if (not f.eof && not f.failed) || f.eof
    then record s {
      read_segment = c.segment;
      read_offset = c.offset;
      next_sequence = if c.sequence == 0 then 1 else c.sequence;
      stats = record s.stats { committed = c.committed; dropped = c.dropped };
    }
    else s

abbrev pub snap_forward : Spool → Spool
snap_forward s =
    if not (is_empty s.segments) && ltb s.read_segment (front 0 s.segments)
    then record s { read_segment = front 0 s.segments; read_offset = 0 }
    else s

unfoldable pub load_state : Spool → Disk → Spool
load_state s d =
    let s' = reset_cursor s in
    snap_forward (elim d.state [ none ↦ s' | some text ↦ take_cursor (parse_cursor text) s' ])

unfoldable pub open_spool : Outcome → List Bytes → Config → Spool → Disk → Returned
open_spool out names cfg s d =
    let s' = record s { cfg = cfg } in
    let opened : Spool = record (load_state (scan_segments names s') d) { is_open = true } in
    if not out.create_ok
    then (some cannot_create_directory, s', d)
    else if not out.scan_ok
    then (some cannot_scan, scan_segments names s', d)
    else (none, set_pending (pending_count (set_pending 0 opened) d) opened, d)

unfoldable pub close : Spool → Spool
close s = record s { is_open = false }
