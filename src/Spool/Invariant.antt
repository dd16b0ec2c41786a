-- ===== src/Spool/Invariant.antt =====
-- The invariant of the spool of src/spool.cpp.
use nano_sensor.Base.{
  ℕ, ◌≤◌, ◌<◌, ◌≡◌, ◌≢◌, refl, sym, ap, ◌∙◌, Option, none, List, [], ◌∷◌, ◌++◌, arith, length, All,
  length-append, take,
}
use mathlib.Core.List.{append_assoc, append-nil}
use nano_sensor.Text.{Bytes}
use nano_sensor.Spool.Frame.{frame}
use nano_sensor.Spool.Codec.{Fits}
use nano_sensor.Spool.Reading.{encode}
use nano_sensor.Spool.Queue.{Spool, Disk, back, update, number_from, peek}
use nano_sensor.Spool.Layout.{Segment, Chain, ids, all_payloads, IsLaid, encode-append}
use nano_sensor.Spool.Peek.{peek-IsLaid}

-- Nothing follows the last frame of the last segment.
abbrev pub IsClean : Bytes → List Segment → Type 0
IsClean tail [] = tail ≡ []
IsClean tail (g ∷ gs) = IsClean g.tail gs

-- The segments hold a record each, and nothing behind their frames.
abbrev pub IsWhole : List Segment → Type 0
IsWhole [] = Unit
IsWhole (g ∷ gs) = (g.tail ≡ []) × (g.payloads ≢ []) × IsWhole gs

-- The first segment is not torn, and the others are whole.
pub record AllWhole (tail : Bytes) (gs : List Segment) : Type 0 where
  pub untorn : tail ≡ []
  pub segments : IsWhole gs

-- There is no file above the last segment.
abbrev pub IsFresh : Disk → ℕ → List Segment → Type 0
IsFresh d id gs = (j : ℕ) → back id (ids gs) < j → d.file j ≡ none

-- The object and its directory hold the payloads q, oldest first: the segments are laid out, the
-- last one is not torn, and there is no file above it.
pub record IsQueue (s : Spool) (d : Disk) (q : List Bytes) : Type 0 where
  pub id : ℕ
  pub done : List Bytes
  pub todo : List Bytes
  pub tail : Bytes
  pub gs : List Segment
  pub laid : IsLaid s d id done todo tail gs
  pub queue : todo ++ all_payloads gs ≡ q
  pub clean : IsClean tail gs
  pub fresh : IsFresh d id gs

-- In the invariant peek returns the oldest payloads of the queue, numbered from 1, as many as are
-- asked for, and no message.
pub peek-IsQueue :
    (room : ℕ) (s : Spool) (d : Disk) {q : List Bytes}
    → IsQueue s d q
    → peek room s d ≡ (number_from 0 (take room q), none)
peek-IsQueue room s d h =
    rw (← h.queue) (peek-IsLaid s d room h.id h.done h.todo h.tail h.gs h.laid)

-- The disk with one file changed.
abbrev pub with_file : Disk → ℕ → Option Bytes → Disk
with_file d id c = record d { file = update d.file id c }

pub back_above : (d : Disk) (k : ℕ) (gs : List Segment) → Chain d k gs → k ≤ back k (ids gs)
back_above d k [] h = omega arith
back_above d k (g ∷ gs) (above, file, tail, fits, chain) = omega (arith, back_above d g.id gs chain)

-- A change below a chain leaves it alone.
pub Chain-below :
    (d : Disk) (j : ℕ) (c : Option Bytes) (k : ℕ) (gs : List Segment)
    → j ≤ k
    → Chain d k gs
    → Chain (with_file d j c) k gs
Chain-below d j c k [] h chain = tt
Chain-below d j c k (g ∷ gs) h (above, file, tail, fits, chain) =
    (above, ground arith, tail, fits, Chain-below d j c g.id gs (omega arith) chain)

-- The last segment with one more payload.
abbrev pub grown : Bytes → List Segment → List Segment
grown p [] = []
grown p (g ∷ []) = record g { payloads = g.payloads ++ (p ∷ []) } ∷ []
grown p (g ∷ h ∷ gs) = g ∷ grown p (h ∷ gs)

pub all_payloads-grown :
    (p : Bytes) (g : Segment) (gs : List Segment)
    → all_payloads (grown p (g ∷ gs)) ≡ all_payloads (g ∷ gs) ++ (p ∷ [])
all_payloads-grown p g [] = rw append-nil (rw append-nil)
all_payloads-grown p g (h ∷ gs) =
    rw (all_payloads-grown p h gs) (sym (append_assoc g.payloads (all_payloads (h ∷ gs)) (p ∷ [])))

pub ids-grown : (p : Bytes) (gs : List Segment) → ids (grown p gs) ≡ ids gs
ids-grown p [] = refl
ids-grown p (g ∷ []) = refl
ids-grown p (g ∷ h ∷ gs) = ap (λ l. g.id ∷ l) (ids-grown p (h ∷ gs))

pub IsClean-grown : (p t : Bytes) (gs : List Segment) → IsClean t gs → IsClean t (grown p gs)
IsClean-grown p t [] h = h
IsClean-grown p t (g ∷ []) h = h
IsClean-grown p t (g ∷ h ∷ gs) c = IsClean-grown p g.tail (h ∷ gs) c

pub All-append : (ps : List Bytes) (p : Bytes) → All Fits ps → Fits p → All Fits (ps ++ (p ∷ []))
All-append [] p h hp = (hp, tt)
All-append (x ∷ ps) p (hx, h) hp = (hx, All-append ps p h hp)

-- One more frame behind the frames of a file.
pub encode_snoc :
    (ps : List Bytes) (p t : Bytes)
    → t ≡ []
    → (encode ps ++ t) ++ frame p ≡ encode (ps ++ (p ∷ [])) ++ []
encode_snoc ps p t h =
    rw (h, append-nil (encode ps), append-nil (encode (ps ++ (p ∷ []))), encode-append)
      (unfold encode in rw append-nil)

pub encode_one : (p : Bytes) → frame p ≡ encode (p ∷ []) ++ []
unfolding encode
encode_one p = rw append-nil (rw append-nil)

-- The invariant looks at the segment files only.
pub Chain-same :
    (d d' : Disk) (k : ℕ) (gs : List Segment)
    → ((j : ℕ) → d'.file j ≡ d.file j)
    → Chain d k gs
    → Chain d' k gs
Chain-same d d' k [] same h = tt
Chain-same d d' k (g ∷ gs) same (above, file, tail, fits, chain) =
    (above, same g.id ∙ file, tail, fits, Chain-same d d' g.id gs same chain)

pub IsLaid-same :
    (s : Spool) (d d' : Disk) (id : ℕ) (done todo : List Bytes) (t : Bytes) (gs : List Segment)
    → ((j : ℕ) → d'.file j ≡ d.file j)
    → IsLaid s d id done todo t gs
    → IsLaid s d' id done todo t gs
IsLaid-same s d d' id done todo t gs same l = record {
  segments = l.segments;
  cursor = l.cursor;
  offset = l.offset;
  file = same id ∙ l.file;
  is_tail = l.is_tail;
  fits = l.fits;
  chain = Chain-same d d' id gs same l.chain;
}

pub IsQueue-same :
    (s : Spool) (d d' : Disk) {q : List Bytes}
    → ((j : ℕ) → d'.file j ≡ d.file j)
    → IsQueue s d q
    → IsQueue s d' q
IsQueue-same s d d' same h = record {
  id = h.id;
  done = h.done;
  todo = h.todo;
  tail = h.tail;
  gs = h.gs;
  queue = h.queue;
  clean = h.clean;
  laid = IsLaid-same s d d' h.id h.done h.todo h.tail h.gs same h.laid;
  fresh = λ j above. same j ∙ h.fresh j above;
}

-- The payloads of the last segment.
abbrev pub newest : List Bytes → List Segment → List Bytes
newest todo [] = todo
newest todo (g ∷ gs) = newest g.payloads gs

-- The queue of an object whose last segment holds a record, and whose segments are whole if W.
abbrev pub HasNewest : Type 0 → Spool → Disk → List Bytes → Type 0
HasNewest W s d q =
    (h : IsQueue s d q) × (1 ≤ length (newest h.todo h.gs)) × (W → AllWhole h.tail h.gs)

pub snoc-some : (ps : List Bytes) (p : Bytes) → ps ++ (p ∷ []) ≢ []
snoc-some ps p e = omega (arith, ap length e, length-append ps (p ∷ []))

pub IsWhole-grown :
    (p : Bytes) (g : Segment) (gs : List Segment) → IsWhole (g ∷ gs) → IsWhole (grown p (g ∷ gs))
IsWhole-grown p g [] (t, some, w) = (t, snoc-some g.payloads p, tt)
IsWhole-grown p g (h ∷ gs) (t, n, w) = (t, n, IsWhole-grown p h gs w)

pub newest-grown :
    (p : Bytes) (todo : List Bytes) (g : Segment) (gs : List Segment)
    → 1 ≤ length (newest todo (grown p (g ∷ gs)))
newest-grown p todo g [] = omega (arith, length-append g.payloads (p ∷ []))
newest-grown p todo g (h ∷ gs) = newest-grown p g.payloads h gs

-- The invariant looks at the segments and the cursor of the object only.
pub IsQueue-counters :
    {W : Type 0} (s s' : Spool) (d : Disk) {q : List Bytes}
    → s'.segments ≡ s.segments
    → s'.read_segment ≡ s.read_segment
    → s'.read_offset ≡ s.read_offset
    → HasNewest W s d q
    → HasNewest W s' d q
IsQueue-counters s s' d a b c (h, n, w) = (
  record {
    id = h.id;
    done = h.done;
    todo = h.todo;
    tail = h.tail;
    gs = h.gs;
    laid = record {
      segments = a ∙ h.laid.segments;
      cursor = b ∙ h.laid.cursor;
      offset = c ∙ h.laid.offset;
      file = h.laid.file;
      is_tail = h.laid.is_tail;
      fits = h.laid.fits;
      chain = h.laid.chain;
    };
    queue = h.queue;
    clean = h.clean;
    fresh = h.fresh;
  },
  n,
  w,
)
