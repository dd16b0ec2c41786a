-- ===== src/Spool/Evict.antt =====
-- One eviction of enforce_bounds in src/spool.cpp.
use nano_sensor.Base.{
  ℕ, suc, ◌+◌, ◌≤◌, ◌≡◌, refl, ap, ◌∙◌, inl, inr, true, Bool-cases, none, List, [], ◌∷◌, ◌++◌,
  arith, length, leb, take, take_all, length-append,
}
use mathlib.Core.Path.{subst}
use nano_sensor.Text.{Bytes}
use nano_sensor.Spool.Reading.{encode}
use nano_sensor.Spool.Queue.{
  Spool, Disk, Outcome, number_from, pending_count, remove_segment, size_max, evict,
}
use nano_sensor.Spool.Layout.{Segment, Chain, ids, all_payloads, IsLaid}
use nano_sensor.Spool.Invariant.{with_file, Chain-below}
use nano_sensor.Spool.Peek.{peek-IsLaid}

length-number_from : (n : ℕ) (ps : List Bytes) → length (number_from n ps) ≡ length ps
length-number_from n [] = refl
length-number_from n (p ∷ ps) = ap suc (length-number_from (n + 1) ps)

-- The number of records that peek counts is the length of the queue, below SIZE_MAX.
pub pending_count-IsLaid :
    (s : Spool) (d : Disk) (id : ℕ) (done todo : List Bytes) (t : Bytes) (gs : List Segment)
    → IsLaid s d id done todo t gs
    → length (todo ++ all_payloads gs) ≤ size_max
    → pending_count s d ≡ length (todo ++ all_payloads gs)
unfolding pending_count
pending_count-IsLaid s d id done todo t gs l b = rw (peek-IsLaid s d size_max id done todo t gs l) (
    length-number_from 0 (take size_max (todo ++ all_payloads gs))
    ∙ ap length (take_all size_max (todo ++ all_payloads gs) b))

-- The object behind an eviction: the cursor at the start of segment g, and n records dropped.
abbrev pub evicted : Spool → Segment → List Segment → ℕ → Spool
evicted s g gs n = record s {
  segments = ids (g ∷ gs);
  read_segment = g.id;
  read_offset = 0;
  stats = record s.stats {
    dropped = s.stats.dropped + n;
    pending = length (all_payloads (g ∷ gs));
  };
}

module _ (out : Outcome) (s : Spool) (d : Disk) (id : ℕ) (done todo : List Bytes) (t : Bytes)
    (g : Segment) (gs : List Segment) (l : IsLaid s d id done todo t (g ∷ gs)) where
  abbrev IsChainIn : Disk → Type 0
  IsChainIn e = Chain e id (g ∷ gs)

  removed-Chain : Chain (remove_segment out id d) id (g ∷ gs)
  removed-Chain = elim (Bool-cases (out.segment_removed id)) [
    | inl y ↦
        subst IsChainIn {x = with_file d id none} {y = remove_segment out id d} (rw y)
          (Chain-below d id none id (g ∷ gs) (omega arith) l.chain)
    | inr n ↦ subst IsChainIn {x = d} {y = remove_segment out id d} (rw n) l.chain
  ]

  -- At the start of the next segment the directory is laid out.
  pub evicted-IsLaid :
      (s' : Spool)
      → s'.segments ≡ ids (g ∷ gs)
      → s'.read_segment ≡ g.id
      → s'.read_offset ≡ 0
      → IsLaid s' (remove_segment out id d) g.id [] g.payloads g.tail gs
  evicted-IsLaid s' e c o = record {
    segments = e;
    cursor = c;
    offset = o ∙ (unfold encode in refl);
    file = removed-Chain.1;
    is_tail = removed-Chain.2;
    fits = removed-Chain.3;
    chain = removed-Chain.4;
  }

  pub evict-IsLaid :
      length (todo ++ all_payloads (g ∷ gs)) ≤ size_max
      → evict out id (ids (g ∷ gs)) s d ≡ (evicted s g gs (length todo), remove_segment out id d)
  unfolding evict
  evict-IsLaid b =
      let next = ids (g ∷ gs) in
      let moved : Spool = record s { segments = next; read_segment = g.id; read_offset = 0 } in
      let at : leb s.read_segment id ≡ true = ground (arith, l.cursor) in
      let later : length (all_payloads (g ∷ gs)) ≤ size_max =
        omega (arith, b, length-append todo (all_payloads (g ∷ gs))) in
      let still : pending_count moved (remove_segment out id d) ≡ length (all_payloads (g ∷ gs)) =
        pending_count-IsLaid moved (remove_segment out id d) g.id [] g.payloads g.tail gs
          (evicted-IsLaid moved refl refl refl) later in
      let lost : pending_count s d ≡ length (todo ++ all_payloads (g ∷ gs)) =
        pending_count-IsLaid s d id done todo t (g ∷ gs) l b in
      rw at (rw (lost, still) (ground (arith, length-append todo (all_payloads (g ∷ gs)))))

pub removed_file :
    (out : Outcome) (id j : ℕ) (d : Disk)
    → d.file j ≡ none
    → (remove_segment out id d).file j ≡ none
removed_file out id j d h = ground arith
