-- ===== src/Spool/Whole.antt =====
-- Queues of src/spool.cpp in which no segment is torn.
use nano_sensor.Base.{ℕ, ◌≡◌, refl, ◌∙◌, List, [], ◌∷◌, ◌++◌}
use mathlib.Core.Path.{subst}
use nano_sensor.Text.{Bytes}
use nano_sensor.Spool.Queue.{Spool, Disk}
use nano_sensor.Spool.Layout.{Segment, all_payloads, IsLaid}
use nano_sensor.Spool.Invariant.{IsQueue, IsClean, IsFresh, IsLaid-same, IsWhole, AllWhole}

pub IsWhole-IsClean : (gs : List Segment) → IsWhole gs → IsClean [] gs
IsWhole-IsClean [] w = refl
IsWhole-IsClean (g ∷ gs) (t, p, w) = rw t (IsWhole-IsClean gs w)

-- The object and its directory hold the payloads q, oldest first, as in IsQueue, where no segment
-- is torn and each one behind the cursor's holds a record.
pub record IsWholeQueue (s : Spool) (d : Disk) (q : List Bytes) : Type 0 where
  pub id : ℕ
  pub done : List Bytes
  pub todo : List Bytes
  pub gs : List Segment
  pub laid : IsLaid s d id done todo [] gs
  pub queue : todo ++ all_payloads gs ≡ q
  pub whole : IsWhole gs
  pub fresh : IsFresh d id gs

pub IsWholeQueue-IsQueue :
    (s : Spool) (d : Disk) {q : List Bytes} → IsWholeQueue s d q → IsQueue s d q
IsWholeQueue-IsQueue s d h = record {
  id = h.id;
  done = h.done;
  todo = h.todo;
  tail = [];
  gs = h.gs;
  laid = h.laid;
  queue = h.queue;
  clean = IsWhole-IsClean h.gs h.whole;
  fresh = h.fresh;
}

-- The state file is no segment file.
pub IsWholeQueue-same :
    (s : Spool) (d d' : Disk) {q : List Bytes}
    → ((j : ℕ) → d'.file j ≡ d.file j)
    → IsWholeQueue s d q
    → IsWholeQueue s d' q
IsWholeQueue-same s d d' same h = record {
  id = h.id;
  done = h.done;
  todo = h.todo;
  gs = h.gs;
  laid = IsLaid-same s d d' h.id h.done h.todo [] h.gs same h.laid;
  queue = h.queue;
  whole = h.whole;
  fresh = λ j above. same j ∙ h.fresh j above;
}

pub IsQueue-whole :
    (s : Spool) (d : Disk) {q : List Bytes} (h : IsQueue s d q)
    → AllWhole h.tail h.gs
    → IsWholeQueue s d q
IsQueue-whole s d h w = record {
  id = h.id;
  done = h.done;
  todo = h.todo;
  gs = h.gs;
  laid = subst (λ (t : Bytes). IsLaid s d h.id h.done h.todo t h.gs) w.untorn h.laid;
  queue = h.queue;
  whole = w.segments;
  fresh = h.fresh;
}
