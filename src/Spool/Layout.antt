-- ===== src/Spool/Layout.antt =====
-- The layout of the spool directory that include/ns/spool.hpp describes, and the queue in it.
use nano_sensor.Base.{ℕ, ◌<◌, ◌≡◌, refl, some, List, [], ◌∷◌, ◌++◌, length, All, drop, drop_front}
use mathlib.Core.List.{append_assoc}
use nano_sensor.Text.{Bytes}
use nano_sensor.Spool.Codec.{Fits}
use nano_sensor.Spool.Reading.{encode, IsTail}
use nano_sensor.Spool.Queue.{Spool, Disk}

-- A segment behind the one that is read: its id, its payloads, and what follows its last frame.
pub record Segment : Type 0 where
  pub id : ℕ
  pub payloads : List Bytes
  pub tail : Bytes

-- The segment files of ascending ids above `id`.
abbrev pub Chain : Disk → ℕ → List Segment → Type 0
Chain d id [] = Unit
Chain d id (g ∷ gs) =
    (id < g.id)
    × (d.file g.id ≡ some (encode g.payloads ++ g.tail))
    × IsTail g.tail
    × All Fits g.payloads
    × Chain d g.id gs

abbrev pub ids : List Segment → List ℕ
ids [] = []
ids (g ∷ gs) = g.id ∷ ids gs

abbrev pub all_payloads : List Segment → List Bytes
all_payloads [] = []
all_payloads (g ∷ gs) = g.payloads ++ all_payloads gs

-- The cursor stands in the first segment `id`, behind the payloads `done` and before `todo`; the
-- other segments follow it.
pub record IsLaid (s : Spool) (d : Disk) (id : ℕ) (done todo : List Bytes) (tail : Bytes)
    (gs : List Segment) : Type 0 where
  pub segments : s.segments ≡ id ∷ ids gs
  pub cursor : s.read_segment ≡ id
  pub offset : s.read_offset ≡ length (encode done)
  pub file : d.file id ≡ some (encode (done ++ todo) ++ tail)
  pub is_tail : IsTail tail
  pub fits : All Fits todo
  pub chain : Chain d id gs

pub encode-append : (ps qs : List Bytes) → encode (ps ++ qs) ≡ encode ps ++ encode qs
unfolding encode
encode-append [] qs = refl
encode-append (p ∷ ps) qs = rw (encode-append ps qs, append_assoc)

-- What is left behind the offset.
pub drop_done :
    (done todo : List Bytes) (tail : Bytes)
    → drop (length (encode done)) (encode (done ++ todo) ++ tail) ≡ encode todo ++ tail
drop_done done todo tail =
    rw (encode-append, append_assoc) (drop_front (encode done) (encode todo ++ tail))
