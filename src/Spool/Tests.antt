-- ===== src/Spool/Tests.antt =====
-- Runs of the spool on a directory of two segments.
use nano_sensor.Base.{
  ◌≡◌, refl, true, none, some, List, [], ◌∷◌, ◌++◌, arith, length, take, inl, inr,
}
use nano_sensor.Text.{Bytes, codes}
use nano_sensor.Spool.Frame.{frame, whole, read_frame, read_records, put_u32}
use nano_sensor.Spool.Codec.{IsTorn, read_frame-frame}
use nano_sensor.Spool.Reading.{encode, read_records-encode}
use nano_sensor.Spool.Queue.{Spool, Disk, fine, update, number_from, peek, append, enforce_bounds}
use nano_sensor.Spool.Layout.{Segment}
use nano_sensor.Spool.Invariant.{IsQueue, peek-IsQueue}
use nano_sensor.Spool.Bounds.{Enforced, enforce_bounds-Enforced}
use nano_sensor.Spool.Accept.{Appended, append-Appended}
use nano_sensor.Spool.Release.{Released}
use nano_sensor.Spool.Whole.{IsWholeQueue}
use nano_sensor.Spool.Crossing.{committed_by, commit-Released}
use nano_sensor.Spool.Wedge.{IsStuck, commit_all, commit-wedges}

abbrev pub first : List Bytes
first = codes "ab" ∷ codes "c" ∷ []

abbrev pub second : Segment
second = record { id = 2; payloads = codes "d" ∷ []; tail = [] }

abbrev pub two_files : Disk
two_files = record {
  file =
      update (update (λ id. none) 1 (some (encode first ++ []))) 2
        (some (encode second.payloads ++ []));
  state = none;
  tmp = none;
}

abbrev pub two_segments : Spool
two_segments = record {
  cfg = record { dir = codes "d"; max_bytes = 30; segment_bytes = 16; fsync_on_append = true };
  is_open = true;
  segments = 1 ∷ 2 ∷ [];
  read_segment = 1;
  read_offset = 0;
  next_sequence = 4;
  stats = record {
    appended = 3;
    committed = 0;
    dropped = 0;
    pending = 3;
    bytes_on_disk = 0;
    segments = 0;
  };
}

abbrev pub three : List Bytes
three = codes "ab" ∷ codes "c" ∷ codes "d" ∷ []

pub nothing_read : 0 ≡ length (encode [])
unfolding encode
nothing_read = refl

abbrev pub held : IsQueue two_segments two_files three
held = record {
  id = 1;
  done = [];
  todo = first;
  tail = [];
  gs = second ∷ [];
  laid = record {
    segments = refl;
    cursor = refl;
    offset = nothing_read;
    file = refl;
    is_tail = inl refl;
    fits = (omega arith, (omega arith, tt));
    chain = (omega arith, refl, inl refl, (omega arith, tt), tt);
  };
  queue = refl;
  clean = refl;
  fresh = λ j above. ground arith;
}

abbrev pub held_whole : IsWholeQueue two_segments two_files three
held_whole = record {
  id = 1;
  done = [];
  todo = first;
  gs = second ∷ [];
  laid = held.laid;
  queue = refl;
  whole = (refl, λ e. ground (arith, e), tt);
  fresh = λ j above. ground arith;
}

commit-Released_example : Released 3 three two_segments (committed_by fine 3 two_segments two_files)
commit-Released_example =
    commit-Released fine two_segments two_files three 3 held_whole (λ e. ground (arith, e)) refl
      (omega arith) (omega arith)

append-Appended_example : Appended three (codes "e") two_segments (
  (append fine (codes "e") two_segments two_files).1,
  (append fine (codes "e") two_segments two_files).2,
)
append-Appended_example =
    append-Appended fine two_segments two_files (codes "e") three held refl (omega arith) refl refl
      (omega arith)

peek-IsQueue_example : peek 2 two_segments two_files ≡ (number_from 0 first, none)
peek-IsQueue_example = peek-IsQueue 2 two_segments two_files held

enforce_bounds-Enforced_example :
    Enforced 30 1 three two_segments (enforce_bounds fine two_segments two_files)
enforce_bounds-Enforced_example =
    enforce_bounds-Enforced fine two_segments two_files held (omega arith)

commit-wedges_example :
    IsStuck 2
      (codes "d" ∷ [])
      (commit_all fine (1 ∷ 7 ∷ []) (committed_by fine 2 two_segments two_files))
commit-wedges_example =
    commit-wedges fine (1 ∷ 7 ∷ []) two_segments two_files three held refl (λ e. ground (arith, e))
      refl

-- The first ten bytes of a frame.
abbrev ten_bytes : Bytes
ten_bytes = take 10 (frame (codes "e"))

ten_bytes-IsTorn : IsTorn ten_bytes
unfolding frame put_u32
ten_bytes-IsTorn = (codes "e", _, _, omega arith, refl)

read_records-encode_example : read_records 9 (encode first ++ ten_bytes) ≡ (first, none)
read_records-encode_example =
    read_records-encode 9 first ten_bytes (omega arith, (omega arith, tt)) (inr ten_bytes-IsTorn)

read_frame-frame_example :
    read_frame (frame (codes "e") ++ codes "x") ≡ whole (codes "e") (codes "x")
read_frame-frame_example = read_frame-frame (codes "e") (codes "x") (omega arith)
