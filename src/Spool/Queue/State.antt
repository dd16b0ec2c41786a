-- ===== src/Spool/Queue/State.antt =====
-- The object of include/ns/spool.hpp and its directory, and the calls of the file system that
-- src/spool.cpp makes on them. The outcome of each call in one operation is an argument.
use nano_sensor.Base.{
  ℕ, ◌+◌, Bool, true, false, not, Option, none, some, List, [], ◌∷◌, ltb, ◌==◌, if◌then◌else◌,
  length, take,
}
use nano_sensor.Text.{Bytes}
use nano_sensor.Spool.StateFile.{Cursor, print_cursor}

pub record Config : Type 0 where
  pub dir : Bytes
  pub max_bytes : ℕ
  pub segment_bytes : ℕ
  pub fsync_on_append : Bool

pub record Record : Type 0 where
  pub sequence : ℕ
  pub payload : Bytes

pub record Stats : Type 0 where
  pub appended : ℕ
  pub committed : ℕ
  pub dropped : ℕ
  pub pending : ℕ
  pub bytes_on_disk : ℕ
  pub segments : ℕ

-- The members of the class; `open_` is is_open.
pub record Spool : Type 0 where
  pub cfg : Config
  pub is_open : Bool
  pub segments : List ℕ
  pub read_segment : ℕ
  pub read_offset : ℕ
  pub next_sequence : ℕ
  pub stats : Stats

-- The directory: the segment file of each id, the state file and the temporary file.
pub record Disk : Type 0 where
  pub file : ℕ → Option Bytes
  pub state : Option Bytes
  pub tmp : Option Bytes

-- The messages that an operation leaves in `error` when it returns false.
pub data Error : Type 0 where
  cannot_create_directory cannot_scan not_open too_large cannot_open_segment append_failed : Error
  cannot_write_state failed_writing_state cannot_commit_state : Error

-- What the calls of the file system do in one operation. A write that fails leaves a prefix; that of
-- the state file is seen only if the stream has flushed its buffer before it is tested.
pub record Outcome : Type 0 where
  pub create_ok : Bool
  pub scan_ok : Bool
  pub segment_opens : Bool
  pub segment_cut : Option ℕ
  pub segment_removed : ℕ → Bool
  pub state_opens : Bool
  pub state_cut : Option ℕ
  pub state_cut_seen : Bool
  pub renamed : Bool
  pub state_removed : Bool
  pub renamed_again : Bool

-- All calls succeed.
abbrev pub fine : Outcome
fine = record {
  create_ok = true;
  scan_ok = true;
  segment_opens = true;
  segment_cut = none;
  segment_removed = λ id. true;
  state_opens = true;
  state_cut = none;
  state_cut_seen = true;
  renamed = true;
  state_removed = true;
  renamed_again = true;
}

abbrev pub update : (ℕ → Option Bytes) → ℕ → Option Bytes → ℕ → Option Bytes
update file id content j = if j == id then content else file j

-- fs::remove of a segment file.
abbrev pub remove_segment : Outcome → ℕ → Disk → Disk
remove_segment out id d =
    if out.segment_removed id then record d { file = update d.file id none } else d

-- fs::file_size, 0 where it fails.
abbrev pub file_size : Disk → ℕ → ℕ
file_size d id = elim (d.file id) [ none ↦ 0 | some bytes ↦ length bytes ]

unfoldable pub total_bytes : List ℕ → Disk → ℕ
total_bytes [] d = 0
total_bytes (id ∷ ids) d = file_size d id + total_bytes ids d

abbrev pub content : Disk → ℕ → Bytes
content d id = elim (d.file id) [ none ↦ [] | some bytes ↦ bytes ]

-- segments_.front() and segments_.back(), and a default for an empty vector.
abbrev pub front : ℕ → List ℕ → ℕ
front default [] = default
front default (id ∷ ids) = id

abbrev pub back : ℕ → List ℕ → ℕ
back default [] = default
back default (id ∷ ids) = back id ids

abbrev pub is_empty : List ℕ → Bool
is_empty [] = true
is_empty (id ∷ ids) = false

abbrev pub without : ℕ → List ℕ → List ℕ
without id [] = []
without id (j ∷ js) = let rest = without id js in if j == id then rest else j ∷ rest

-- std::upper_bound: the first id above `id`.
unfoldable pub upper_bound : ℕ → List ℕ → Option ℕ
upper_bound id [] = none
upper_bound id (j ∷ js) = if ltb id j then some j else upper_bound id js

-- What an operation returns: no error is `true`.
abbrev pub Returned : Type 0
Returned = Option Error × Spool × Disk

abbrev pub cursor_of : Spool → Cursor
cursor_of s = record {
  segment = s.read_segment;
  offset = s.read_offset;
  sequence = s.next_sequence;
  committed = s.stats.committed;
  dropped = s.stats.dropped;
}

abbrev pub cut : Option ℕ → Bytes → Bytes
cut none bytes = bytes
cut (some n) bytes = take n bytes

-- The temporary file has the text: it replaces the state file, at the second attempt at the latest.
abbrev pub commit_state : Outcome → Bytes → Disk → Option Error × Disk
commit_state out text d =
    let old = if out.state_removed then none else d.state in
    if out.renamed
    then (none, record d { state = some text; tmp = none })
    else if out.renamed_again
    then (none, record d { state = some text; tmp = none })
    else (some cannot_commit_state, record d { state = old; tmp = some text })

unfoldable pub save_state : Outcome → Spool → Disk → Option Error × Disk
save_state out s d =
    let text = print_cursor (cursor_of s) in
    if not out.state_opens then (some cannot_write_state, d) else elim out.state_cut [
      | none ↦ commit_state out text d
      | some n ↦
          if out.state_cut_seen
          then (some failed_writing_state, record d { tmp = some (take n text) })
          else commit_state out (take n text) d
    ]

abbrev pub with_disk : Spool → Option Error × Disk → Returned
with_disk s (e, d) = (e, s, d)
