-- ===== src/Spool/Append.antt =====
-- The new record of append of src/spool.cpp in the last segment, or in a new one.
use nano_sensor.Base.{
  ℕ, ◌+◌, ◌≤◌, ◌≡◌, inl, refl, sym, ap, ◌∙◌, none, some, List, [], ◌∷◌, ◌++◌, arith, length,
  length-append,
}
use mathlib.Core.List.{append_assoc, append-nil}
use nano_sensor.Text.{Bytes}
use nano_sensor.Spool.Frame.{frame}
use nano_sensor.Spool.Codec.{Fits}
use nano_sensor.Spool.Queue.{Spool, Disk, back, content}
use nano_sensor.Spool.Layout.{Segment, Chain, ids, all_payloads, IsLaid}
use nano_sensor.Spool.Invariant.{
  newest, newest-grown, HasNewest, IsWhole, AllWhole, IsWhole-grown, snoc-some, IsFresh, IsClean,
  with_file, back_above, grown, all_payloads-grown, ids-grown, IsClean-grown, All-append,
  encode_snoc, encode_one,
}

-- The disk behind a frame that reached file `a` whole.
abbrev pub grow : Disk → ℕ → Bytes → Disk
grow d a p = with_file d a (some (content d a ++ frame p))

abbrev new_segment : ℕ → Bytes → Segment
new_segment a p = record { id = a + 1; payloads = p ∷ []; tail = [] }

module _ (d : Disk) (p : Bytes) (hp : Fits p) where
  Chain-grown :
      (k : ℕ) (t : Bytes) (gs : List Segment)
      → IsClean t gs
      → Chain d k gs
      → Chain (grow d (back k (ids gs)) p) k (grown p gs)
  Chain-grown k t [] c h = tt
  Chain-grown k t (g ∷ []) c (above, file, tail, fits, chain) = (
    above,
    ground (arith, encode_snoc g.payloads p g.tail c),
    tail,
    All-append g.payloads p fits hp,
    tt,
  )
  Chain-grown k t (g ∷ h ∷ gs) c (above, file, tail, fits, chain) = (
    above,
    ground (arith, back_above d h.id gs chain.4),
    tail,
    fits,
    Chain-grown g.id g.tail (h ∷ gs) c chain,
  )

  Chain-rolled :
      (k : ℕ) (gs : List Segment)
      → d.file (back k (ids gs) + 1) ≡ none
      → Chain d k gs
      → Chain (grow d (back k (ids gs) + 1) p) k (gs ++ (new_segment (back k (ids gs)) p ∷ []))
  Chain-rolled k [] f h = (omega arith, ground (arith, encode_one p), inl refl, (hp, tt), tt)
  Chain-rolled k (g ∷ gs) f (above, file, tail, fits, chain) =
      (above, ground (arith, back_above d g.id gs chain), tail, fits, Chain-rolled g.id gs f chain)

  all_payloads-rolled :
      (a : ℕ) (gs : List Segment)
      → all_payloads (gs ++ (new_segment a p ∷ [])) ≡ all_payloads gs ++ (p ∷ [])
  all_payloads-rolled a [] = refl
  all_payloads-rolled a (g ∷ gs) =
      rw (all_payloads-rolled a gs) (sym (append_assoc g.payloads (all_payloads gs) (p ∷ [])))

  ids-rolled :
      (a : ℕ) (gs : List Segment) → ids (gs ++ (new_segment a p ∷ [])) ≡ ids gs ++ ((a + 1) ∷ [])
  ids-rolled a [] = refl
  ids-rolled a (g ∷ gs) = ap (λ l. g.id ∷ l) (ids-rolled a gs)

  IsClean-rolled :
      (t : Bytes) (a : ℕ) (gs : List Segment) → IsClean t (gs ++ (new_segment a p ∷ []))
  IsClean-rolled t a [] = refl
  IsClean-rolled t a (g ∷ gs) = IsClean-rolled g.tail a gs

  IsWhole-rolled : (a : ℕ) (gs : List Segment) → IsWhole gs → IsWhole (gs ++ (new_segment a p ∷ []))
  IsWhole-rolled a [] w = (refl, snoc-some [] p, tt)
  IsWhole-rolled a (g ∷ gs) (t, n, w) = (t, n, IsWhole-rolled a gs w)

  newest-rolled :
      (a : ℕ) (todo : List Bytes) (gs : List Segment)
      → 1 ≤ length (newest todo (gs ++ (new_segment a p ∷ [])))
  newest-rolled a todo [] = omega arith
  newest-rolled a todo (g ∷ gs) = newest-rolled a g.payloads gs

pub back_snoc : (k a : ℕ) (js : List ℕ) → back k (js ++ (a ∷ [])) ≡ a
back_snoc k a [] = refl
back_snoc k a (j ∷ js) = back_snoc j a js

module _ (s : Spool) (d : Disk) (p : Bytes) (hp : Fits p) (id : ℕ) (done todo : List Bytes) where
  -- The frame goes to the last segment: the one that the cursor stands in, or a later one.
  pub to_last :
      (t : Bytes) (gs : List Segment)
      → IsLaid s d id done todo t gs
      → IsClean t gs
      → IsFresh d id gs
      → HasNewest
          (AllWhole t gs)
          s
          (grow d (back id (ids gs)) p)
          ((todo ++ all_payloads gs) ++ (p ∷ []))
  to_last t [] l c f = (
    record {
      id = id;
      done = done;
      todo = todo ++ (p ∷ []);
      tail = [];
      gs = [];
      laid = record {
        segments = l.segments;
        cursor = l.cursor;
        offset = l.offset;
        file =
            ground
              (arith, l.file, encode_snoc (done ++ todo) p t c, append_assoc done todo (p ∷ []));
        is_tail = inl refl;
        fits = All-append todo p l.fits hp;
        chain = tt;
      };
      queue = cc (append-nil (todo ++ (p ∷ [])), append-nil todo);
      clean = refl;
      fresh = λ j b. ground (arith, f j b);
    },
    omega (arith, length-append todo (p ∷ [])),
    λ w. record { untorn = refl; segments = tt },
  )
  to_last t (g ∷ gs) l c f = (
    record {
      id = id;
      done = done;
      todo = todo;
      tail = t;
      gs = grown p (g ∷ gs);
      laid = record {
        segments = rw ids-grown l.segments;
        cursor = l.cursor;
        offset = l.offset;
        file = ground (arith, l.file, l.chain.0, back_above d g.id gs l.chain.4);
        is_tail = l.is_tail;
        fits = l.fits;
        chain = Chain-grown d p hp id t (g ∷ gs) c l.chain;
      };
      queue =
          ap (λ (r : List Bytes). todo ++ r) (all_payloads-grown p g gs)
          ∙ sym (append_assoc todo (all_payloads (g ∷ gs)) (p ∷ []));
      clean = IsClean-grown p t (g ∷ gs) c;
      fresh = rw ids-grown (λ j b. ground (arith, f j b));
    },
    newest-grown p todo g gs,
    λ w. record { untorn = w.untorn; segments = IsWhole-grown p g gs w.segments },
  )

  -- The frame goes to a new segment behind the last one.
  pub to_new :
      (t : Bytes) (gs : List Segment)
      → IsLaid s d id done todo t gs
      → IsFresh d id gs
      → HasNewest
          (AllWhole t gs)
          (record s { segments = s.segments ++ ((back id (ids gs) + 1) ∷ []) })
          (grow d (back id (ids gs) + 1) p)
          ((todo ++ all_payloads gs) ++ (p ∷ []))
  to_new t gs l f =
      let a : ℕ = back id (ids gs) in
      (
        record {
          id = id;
          done = done;
          todo = todo;
          tail = t;
          gs = gs ++ (new_segment a p ∷ []);
          laid = record {
            segments = rw (l.segments, ids-rolled d p hp a gs) refl;
            cursor = l.cursor;
            offset = l.offset;
            file = ground (arith, l.file, back_above d id gs l.chain);
            is_tail = l.is_tail;
            fits = l.fits;
            chain = Chain-rolled d p hp id gs (f (a + 1) (omega arith)) l.chain;
          };
          queue =
              ap (λ (r : List Bytes). todo ++ r) (all_payloads-rolled d p hp a gs)
              ∙ sym (append_assoc todo (all_payloads gs) (p ∷ []));
          clean = IsClean-rolled d p hp t a gs;
          fresh =
              rw (ids-rolled d p hp a gs, back_snoc id (a + 1) (ids gs))
                (λ j b. ground (arith, f j (omega arith)));
        },
        newest-rolled d p hp a todo gs,
        λ w. record { untorn = w.untorn; segments = IsWhole-rolled d p hp a gs w.segments },
      )
