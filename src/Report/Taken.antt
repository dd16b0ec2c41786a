-- ===== src/Report/Taken.antt =====
-- The batches that Reporter::drain of src/main.cpp posts, and the records that it takes off the queue.
use nano_sensor.Base.{
  ℕ, zero, suc, ◌+◌, ◌≡◌, refl, sym, ap, ◌∙◌, true, not, if_cases, Option, none, some, List, [],
  ◌∷◌, ◌++◌, All, length, take, arith, get_elem?, length-append,
}
use mathlib.Core.Logic.{∥∥₁_prop, ∥∥₁_map}
use mathlib.Core.Logic.Or
use mathlib.Core.Path.{subst}
use mathlib.Core.List.{Mem, not-mem-nil, mem-append, mem-cons_self, mem-cons_of_mem}
use nano_sensor.Text.{Bytes}
use nano_sensor.Spool.Queue.{Error, Spool, Disk, peek, commit}
use nano_sensor.Spool.Whole.{IsWholeQueue}
use nano_sensor.Transport.Reply.{Result}
use nano_sensor.Report.Drain.{
  Surroundings, Limits, Drain, payloads, body_of, note, Next, ends, goes_on, exhausted, acknowledge,
  no_batch, drain_round, drain_loop, start, drain,
}
use nano_sensor.Report.Drained.{accepted, Drained}
use nano_sensor.Report.Delivery.{drain-Drained}

module _ (w : Surroundings) where
  -- The results are the replies to the batches, each in its round, from round k on.
  abbrev Replies : ℕ → List (List Bytes × Result) → Type 0
  Replies k [] = Unit
  Replies k ((batch, result) ∷ ps) = (result ≡ w.post k (body_of batch)) × Replies (suc k) ps

  note-Replies :
      (k n : ℕ) (batch : List Bytes) (ps : List (List Bytes × Result))
      → n ≡ k + length ps
      → Replies k ps
      → Replies k (ps ++ ((batch, w.post n (body_of batch)) ∷ []))
  note-Replies k n batch [] at h =
      (ap (λ (i : ℕ). w.post i (body_of batch)) (omega (arith, at)), tt)
  note-Replies k n batch (p ∷ ps) at (e, h) =
      (e, note-Replies (suc k) n batch ps (omega (arith, at)) h)

  abbrev IsHonest : Drain → Type 0
  IsHonest t = Replies 0 t.posted

  -- Behind round n: each round that goes on has posted one batch.
  abbrev Follows : ℕ → Next → Type 0
  Follows n (ends t) = Replies 0 t.posted
  Follows n (goes_on attempt t) = Replies 0 t.posted × (length t.posted ≡ suc n)

  acknowledge-Follows :
      (n : ℕ) (batch : List Bytes) (e : Option Error) (s : Spool) (d : Disk) (t : Drain)
      → Replies 0 t.posted
      → length t.posted ≡ suc n
      → Follows n (acknowledge batch (e, s, d) t)
  acknowledge-Follows n batch none s d t h size = (h, size)
  acknowledge-Follows n batch (some error) s d t h size = h

  round-Follows :
      (opt : Limits) (n attempt : ℕ) (t : Drain)
      → Replies 0 t.posted
      → length t.posted ≡ n
      → Follows n (drain_round w opt n attempt t)
  unfolding drain_round
  round-Follows opt n attempt t h size =
      let batch : List Bytes = payloads (peek opt.batch_size t.spool t.disk).0 in
      let r : Result = w.post n (body_of batch) in
      let t' : Drain = note batch r t in
      let honest : Replies 0 t'.posted = note-Replies 0 n batch t.posted (omega (arith, size)) h in
      let longer : length t'.posted ≡ suc n =
        omega (arith, size, length-append t.posted ((batch, r) ∷ [])) in
      let (e, s, d) = commit (w.files n) (length batch) t.spool t.disk in
      let P = Follows n in
      if_cases P (w.stop_requested n) _ _ (λ stop. h)
        (λ go.
          if_cases P (no_batch batch) _ _ (λ none_left. h)
            (λ some_batch.
              if_cases P r.ok _ _ (λ ok. acknowledge-Follows n batch e s d t' honest longer)
                (λ failed.
                  if_cases P (not r.retryable) _ _ (λ final. honest)
                    (λ again.
                      if_cases P (exhausted opt.max_attempts (attempt + 1)) _ _ (λ last. honest)
                        (λ more. (honest, longer))))))

  onward-Replies :
      (n : ℕ) (next : Next) (onward : ℕ → Drain → Drain)
      → Follows n next
      → ((a : ℕ) (t : Drain)
          → Replies 0 t.posted
          → length t.posted ≡ suc n
          → Replies 0 (onward a t).posted)
      → IsHonest (elim next [ ends t' ↦ t' | goes_on a t' ↦ onward a t' ])
  onward-Replies n (ends t') onward h f = h
  onward-Replies n (goes_on a t') onward (h, size) f = f a t' h size

  loop-Replies :
      (opt : Limits) (fuel n attempt : ℕ) (t : Drain)
      → Replies 0 t.posted
      → length t.posted ≡ n
      → Replies 0 (drain_loop w opt fuel n attempt t).posted
  unfolding drain_loop
  loop-Replies opt zero n attempt t h size = h
  loop-Replies opt (suc fuel) n attempt t h size =
      onward-Replies n (drain_round w opt n attempt t) (λ a t'. drain_loop w opt fuel (suc n) a t')
        (round-Follows opt n attempt t h size) (λ a t'. loop-Replies opt fuel (suc n) a t')

  -- The record was in the batch of place i, whose reply in round n, which is k + i, was ok.
  pub record IsTaken (k : ℕ) (ps : List (List Bytes × Result)) (p : Bytes) : Type 0 where
    pub n : ℕ
    pub i : ℕ
    pub round : n ≡ k + i
    pub batch : List Bytes
    pub inside : Mem p batch
    pub posted : get_elem? ps i ≡ some (batch, w.post n (body_of batch))
    pub ok : (w.post n (body_of batch)).ok ≡ true

  pub accepted-IsTaken :
      (k : ℕ) (ps : List (List Bytes × Result)) (p : Bytes)
      → Replies k ps
      → Mem p (accepted ps)
      → ∥ IsTaken k ps p ∥₁
  accepted-IsTaken k [] p h m = absurd (not-mem-nil m)
  accepted-IsTaken k ((batch, r) ∷ ps) p (e, h) m =
      let later : Mem p (accepted ps) → ∥ IsTaken k ((batch, r) ∷ ps) p ∥₁ = λ m'.
        ∥∥₁_map (accepted-IsTaken (suc k) ps p h m') (λ (taken : IsTaken (suc k) ps p). record {
          n = taken.n;
          i = suc taken.i;
          round = omega (arith, taken.round);
          batch = taken.batch;
          inside = taken.inside;
          posted = taken.posted;
          ok = taken.ok;
        }) in
      if_cases (λ (l : List Bytes). Mem p l → ∥ IsTaken k ((batch, r) ∷ ps) p ∥₁) r.ok _ _
        (λ ok m'.
          Or.elim ∥∥₁_prop (mem-append.0 m')
            (λ first. ∣ record {
              n = k;
              i = 0;
              round = omega arith;
              batch = batch;
              inside = first;
              posted = ap (λ (x : Result). some (batch, x)) e;
              ok = ap (λ (x : Result). x.ok) (sym e) ∙ ok;
            } ∣₁)
            later)
        (λ failed. later) m

  -- The record was in the batch that the drain posted in round n, to a peer that is good, and the
  -- reply to just that body was ok.
  pub record IsDelivered (IsGood : ℕ → Type 0) (t : Drain) (p : Bytes) : Type 0 where
    pub n : ℕ
    pub batch : List Bytes
    pub inside : Mem p batch
    pub posted : get_elem? t.posted n ≡ some (batch, w.post n (body_of batch))
    pub ok : (w.post n (body_of batch)).ok ≡ true
    pub good : IsGood n

each_member : {P : Bytes → Type 0} (ps : List Bytes) → ((p : Bytes) → Mem p ps → P p) → All P ps
unfolding mem-cons_self
each_member [] f = tt
each_member (p ∷ ps) f = (f p mem-cons_self, each_member ps (λ p' m. f p' (mem-cons_of_mem p m)))

-- If a POST returns ok to good peers only, each record that a drain takes off the queue was in a batch
-- that it posted to a good one.
pub drain_guarded :
    (IsGood : ℕ → Type 0) (w : Surroundings)
    → ((n : ℕ) (body : Bytes) → (w.post n body).ok ≡ true → IsGood n)
    → (opt : Limits) (fuel : ℕ) (s : Spool) (d : Disk) (q : List Bytes) → IsWholeQueue s d q
    → s.is_open ≡ true
    → (r : Drained q (start s d) (drain w opt fuel s d)) × All
        (λ p. ∥ IsDelivered w IsGood (drain w opt fuel s d) p ∥₁)
        (take r.k q)
unfolding drain
drain_guarded IsGood w guarded opt fuel s d q h is_open =
    let r = drain-Drained w opt fuel s d q h is_open in
    let posted = (drain_loop w opt fuel 0 0 (start s d)).posted in
    (
      r,
      each_member (take r.k q) (λ p m.
          ∥∥₁_map
            (accepted-IsTaken w 0 posted p (loop-Replies w opt fuel 0 0 (start s d) tt refl)
              (r.delivered p m))
            (λ (taken : IsTaken w 0 posted p). record {
              n = taken.n;
              batch = taken.batch;
              inside = taken.inside;
              posted =
                  subst
                    (λ (i : ℕ).
                      get_elem? posted i ≡ some (taken.batch, w.post taken.n (body_of taken.batch)))
                    (omega (arith, taken.round)) taken.posted;
              ok = taken.ok;
              good = guarded taken.n (body_of taken.batch) taken.ok;
            })),
    )
