-- ===== src/Spool/Peek.antt =====
-- peek of src/spool.cpp over the segments of a directory.
use nano_sensor.Base.{
  false, if◌then◌else◌, ℕ, zero, suc, ◌-◌, ◌≤◌, ◌≡◌, refl, ap, ◌∙◌, Bool-cases, inl, inr, Option,
  none, some, List, [], ◌∷◌, ◌++◌, arith, leb, ltb, length, take, length-take, take-append,
  take_all, take_short, All,
}
use nano_sensor.Text.{Bytes}
use nano_sensor.Spool.Frame.{PeekError}
use nano_sensor.Spool.Codec.{Fits}
use nano_sensor.Spool.Reading.{encode, IsTail, read_records-encode}
use nano_sensor.Spool.Queue.{Spool, Disk, start_of, peek_loop, number_from, peek}
use nano_sensor.Spool.Layout.{Segment, Chain, ids, all_payloads, IsLaid, drop_done}

-- The end of a round: the loop stops if there is no room left, and goes on if there is.
joined :
    (room : ℕ) (ps qs : List Bytes)
    → ◌≡◌ {A = List Bytes × Option PeekError}
        (if leb room (length (take room ps))
          then (take room ps, none)
          else (take room ps ++ take (room - length (take room ps)) qs, none))
        (take room (ps ++ qs), none)
joined room ps qs = elim (Bool-cases (leb room (length (take room ps)))) [
  | inl full ↦ rw full (rw (take_short room ps qs (ground (arith, length-take room ps))))
  | inr free ↦
      let whole : length ps ≤ room = ground (arith, length-take room ps) in
      rw (free, take-append room ps qs, take_all room ps whole)
]

-- One file of the loop: its payloads, then those of the later files.
module _ (s : Spool) (d : Disk) where
  peek_file :
      (room id : ℕ) (later : List ℕ) (bytes t : Bytes) (ps qs : List Bytes)
      → s.read_segment ≤ id
      → d.file id ≡ some bytes
      → start_of s id bytes ≡ encode ps ++ t
      → IsTail t
      → All Fits ps
      → ((left : ℕ) → peek_loop s d left later ≡ (take left qs, none))
      → peek_loop s d room (id ∷ later) ≡ (take room (ps ++ qs), none)
  unfolding peek_loop
  peek_file room id later bytes t ps qs at f start ht hp more =
      let shown : ltb id s.read_segment ≡ false = ground arith in
      rw (shown, f, peek_loop)
        (rw (start, read_records-encode room ps t hp ht, more) (joined room ps qs))

  peek-Chain :
      (room k : ℕ) (gs : List Segment)
      → s.read_segment ≤ k
      → Chain d k gs
      → peek_loop s d room (ids gs) ≡ (take room (all_payloads gs), none)
  peek-Chain zero k [] at h = unfold peek_loop in refl
  peek-Chain (suc room) k [] at h = unfold peek_loop in refl
  peek-Chain room k (g ∷ gs) at (above, file, tail, fits, chain) =
      peek_file room g.id (ids gs) (encode g.payloads ++ g.tail) g.tail g.payloads (all_payloads gs)
        (omega arith) file (ground arith) tail fits
        (λ left. peek-Chain left g.id gs (omega arith) chain)

  -- peek returns the front of the queue and no message, in every layout of the directory: what is
  -- behind the cursor in the segment it stands in, then the payloads of the later segments; torn
  -- records behind the last whole one of a segment are passed over.
  pub peek_loop-IsLaid :
      (room id : ℕ) (done todo : List Bytes) (t : Bytes) (gs : List Segment)
      → IsLaid s d id done todo t gs
      → peek_loop s d room s.segments ≡ (take room (todo ++ all_payloads gs), none)
  peek_loop-IsLaid room id done todo t gs l =
      ap (peek_loop s d room) l.segments
      ∙ (peek_file room id (ids gs) (encode (done ++ todo) ++ t) t todo (all_payloads gs)
          (omega (arith, l.cursor)) l.file
          (ground (arith, l.cursor, l.offset, drop_done done todo t)) l.is_tail l.fits
          (λ left. peek-Chain left id gs (omega (arith, l.cursor)) l.chain))

  pub peek-IsLaid :
      (room id : ℕ) (done todo : List Bytes) (t : Bytes) (gs : List Segment)
      → IsLaid s d id done todo t gs
      → peek room s d ≡ (number_from 0 (take room (todo ++ all_payloads gs)), none)
  unfolding peek
  peek-IsLaid room id done todo t gs l = rw (peek_loop-IsLaid room id done todo t gs l)
