-- ===== src/Spool/Queue/Reads.antt =====
-- peek of src/spool.cpp and the bounds that evict whole segments.
use nano_sensor.Base.{
  ℕ, ◌+◌, ◌-◌, true, false, Option, none, some, List, [], ◌∷◌, ◌++◌, ltb, leb, ◌==◌, if◌then◌else◌,
  length, drop,
}
use nano_sensor.Text.{Bytes}
use nano_sensor.Spool.Frame.{PeekError, read_records}
use nano_sensor.Spool.Queue.State.{Record, Spool, Disk, Outcome, remove_segment, total_bytes, front}

-- The payloads that peek reads, and its last message.
abbrev pub later_error : Option PeekError → Option PeekError → Option PeekError
later_error e none = e
later_error e (some e') = some e'

abbrev pub start_of : Spool → ℕ → Bytes → Bytes
start_of s id bytes = if id == s.read_segment then drop s.read_offset bytes else bytes

unfoldable pub peek_loop : Spool → Disk → ℕ → List ℕ → List Bytes × Option PeekError
peek_loop s d room [] = ([], none)
peek_loop s d room (id ∷ ids) =
    let skipped = peek_loop s d room ids in
    let read = λ (bytes : Bytes).
      let (out, e) = read_records room (start_of s id bytes) in
      let (more, e') = peek_loop s d (room - length out) ids in
      let joined : List Bytes × Option PeekError = (out ++ more, later_error e e') in
      let stopped : List Bytes × Option PeekError = (out, e) in
      if leb room (length out) then stopped else joined in
    if ltb id s.read_segment
    then skipped
    else elim (d.file id) [ none ↦ skipped | some bytes ↦ read bytes ]

abbrev pub number_from : ℕ → List Bytes → List Record
number_from seq [] = []
number_from seq (p ∷ ps) = record { sequence = seq + 1; payload = p } ∷ number_from (seq + 1) ps

unfoldable pub peek : ℕ → Spool → Disk → List Record × Option PeekError
peek max_records s d = let (out, e) = peek_loop s d max_records s.segments in (number_from 0 out, e)

-- SIZE_MAX
abbrev pub size_max : ℕ
size_max = 18446744073709551615

-- peek(SIZE_MAX, ignored).size()
unfoldable pub pending_count : Spool → Disk → ℕ
pending_count s d = length (peek size_max s d).0

abbrev pub set_pending : ℕ → Spool → Spool
set_pending n s = record s { stats = record s.stats { pending = n } }

-- One eviction: the oldest segment goes, and the cursor leaves it if it stood there.
unfoldable pub evict : Outcome → ℕ → List ℕ → Spool → Disk → Spool × Disk
evict out victim rest s d =
    let lost = if leb s.read_segment victim then pending_count s d else 0 in
    let d' = remove_segment out victim d in
    let s' = record s { segments = rest } in
    let moved : Spool = record s' { read_segment = front (victim + 1) rest; read_offset = 0 } in
    let still = pending_count moved d' in
    let counted : Spool = record moved {
      stats = record s.stats { dropped = s.stats.dropped + (lost - still); pending = still };
    } in
    (if leb s.read_segment victim then counted else s', d')

-- The loop of enforce_bounds; each round takes one segment, so their number is enough fuel.
unfoldable pub enforce_loop : Outcome → ℕ → List ℕ → Spool → Disk → Spool × Disk
enforce_loop out budget [] s d = (s, d)
enforce_loop out budget (victim ∷ []) s d = (s, d)
enforce_loop out budget (victim ∷ next ∷ rest) s d =
    elim (ltb budget (total_bytes (victim ∷ next ∷ rest) d)) [
      | true ↦
          let (s', d') = evict out victim (next ∷ rest) s d in
          enforce_loop out budget (next ∷ rest) s' d'
      | false ↦ (s, d)
    ]

unfoldable pub enforce_bounds : Outcome → Spool → Disk → Spool × Disk
enforce_bounds out s d = enforce_loop out s.cfg.max_bytes s.segments s d

unfoldable pub stats : Spool → Disk → Spool
stats s d = record s {
  stats = record s.stats {
    bytes_on_disk = total_bytes s.segments d;
    segments = length s.segments;
    pending = pending_count s d;
  };
}
