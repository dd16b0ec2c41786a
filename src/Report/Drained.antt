-- ===== src/Report/Drained.antt =====
-- What a drain of src/main.cpp may have done to the queue of the spool.
use nano_sensor.Base.{
  if◌then◌else◌, if_true, ℕ, zero, suc, ◌+◌, ◌≤◌, ◌<◌, ◌≡◌, refl, ap, ◌∙◌, ◌⊎◌, inl, inr, true,
  List, [], ◌∷◌, ◌++◌, arith, length, take, drop, length-drop,
}
use native.Mathlib.Nat.{zero-add, suc-add}
use mathlib.Core.Path.{subst}
use mathlib.Core.Logic.Or
use mathlib.Core.List.{
  append_assoc, append-nil, Mem, Mem-prop, Subset, not-mem-nil, mem-append, mem-append_left,
  mem-append_right,
}
use nano_sensor.Text.{Bytes}
use nano_sensor.Transport.Reply.{Result}
use nano_sensor.Spool.Queue.{Spool, Disk, Outcome, number_from}
use nano_sensor.Spool.Release.{Released}
use nano_sensor.Spool.Whole.{IsWholeQueue}
use nano_sensor.Spool.Crossing.{committed_by, commit-Released, commit_none-Released}
use nano_sensor.Report.Drain.{Drain, note, payloads, Next, ends, goes_on}

-- The payloads of the batches whose POST returned ok.
abbrev pub accepted : List (List Bytes × Result) → List Bytes
accepted [] = []
accepted ((batch, result) ∷ ps) =
    let rest = accepted ps in if result.ok then batch ++ rest else rest

abbrev pub acknowledged : Drain → List Bytes
acknowledged t = accepted t.posted

accepted-append :
    (ps rs : List (List Bytes × Result)) → accepted (ps ++ rs) ≡ accepted ps ++ accepted rs
accepted-append [] rs = refl
accepted-append ((batch, result) ∷ ps) rs =
    ground (arith, accepted-append ps rs, append_assoc batch (accepted ps) (accepted rs))

pub note-grown :
    (batch : List Bytes) (r : Result) (t : Drain)
    → Subset (acknowledged t) (acknowledged (note batch r t))
note-grown batch r t p m =
    rw (accepted-append t.posted ((batch, r) ∷ [])) (mem-append_left (accepted ((batch, r) ∷ [])) m)

accepted-one : (batch : List Bytes) (r : Result) → r.ok ≡ true → accepted ((batch, r) ∷ []) ≡ batch
accepted-one batch r ok = if_true r.ok (batch ++ []) [] ok ∙ append-nil batch

pub note-ok :
    (batch : List Bytes) (r : Result) (t : Drain)
    → r.ok ≡ true
    → acknowledged (note batch r t) ≡ acknowledged t ++ batch
note-ok batch r t ok =
    accepted-append t.posted ((batch, r) ∷ [])
    ∙ ap (λ (l : List Bytes). acknowledged t ++ l) (accepted-one batch r ok)

pub payloads-number_from : (n : ℕ) (ps : List Bytes) → payloads (number_from n ps) ≡ ps
payloads-number_from n [] = refl
payloads-number_from n (p ∷ ps) = ap (λ l. p ∷ l) (payloads-number_from (n + 1) ps)

drop_nil : (n : ℕ) → drop {A = Bytes} n [] ≡ []
drop_nil zero = refl
drop_nil (suc n) = refl

take_nil : (n : ℕ) → take {A = Bytes} n [] ≡ []
take_nil zero = refl
take_nil (suc n) = refl

pub drop-drop : (m k : ℕ) (q : List Bytes) → drop m (drop k q) ≡ drop (k + m) q
drop-drop m zero q = rw zero-add refl
drop-drop m (suc k) [] = rw (suc-add, drop_nil m, drop_nil (suc (k + m))) refl
drop-drop m (suc k) (p ∷ q) = rw suc-add (drop-drop m k q)

pub take_sum : (m k : ℕ) (q : List Bytes) → take (k + m) q ≡ take k q ++ take m (drop k q)
take_sum m zero q = rw zero-add refl
take_sum m (suc k) [] = rw (suc-add, take_nil m) refl
take_sum m (suc k) (p ∷ q) = rw suc-add (ap (λ l. p ∷ l) (take_sum m k q))

-- From t to t' the oldest records of the queue q went, each of them in a batch that was
-- acknowledged; the others are still there, in their order.
pub record Drained (q : List Bytes) (t t' : Drain) : Type 0 where
  pub k : ℕ
  pub bound : k ≤ length q
  pub kept : IsWholeQueue t'.spool t'.disk (drop k q)
  pub delivered : Subset (take k q) (acknowledged t')
  pub grown : Subset (acknowledged t) (acknowledged t')
  pub committed : t'.spool.stats.committed ≡ t.spool.stats.committed + k
  pub dropped : t'.spool.stats.dropped ≡ t.spool.stats.dropped
  pub appended : t'.spool.stats.appended ≡ t.spool.stats.appended
  pub is_open : t'.spool.is_open ≡ t.spool.is_open
  pub fewer : length t'.spool.segments ≤ length t.spool.segments

pub Drained-trans :
    {q : List Bytes} {t t' t'' : Drain} (a : Drained q t t')
    → Drained (drop a.k q) t' t''
    → Drained q t t''
Drained-trans {q} {t} {t'} {t''} a b = record {
  k = a.k + b.k;
  bound = omega (arith, a.bound, b.bound, length-drop a.k q);
  kept = subst (λ (l : List Bytes). IsWholeQueue t''.spool t''.disk l) (drop-drop b.k a.k q) b.kept;
  delivered = λ p m.
      let m' : Mem p (take a.k q ++ take b.k (drop a.k q)) =
        subst (λ (l : List Bytes). Mem p l) (take_sum b.k a.k q) m in
      Or.elim (Mem-prop {a = p} {l = acknowledged t''}) (mem-append.0 m')
        (λ first. b.grown p (a.delivered p first)) (λ later. b.delivered p later);
  grown = λ p m. b.grown p (a.grown p m);
  committed = omega (arith, a.committed, b.committed);
  dropped = b.dropped ∙ a.dropped;
  appended = b.appended ∙ a.appended;
  is_open = b.is_open ∙ a.is_open;
  fewer = omega (arith, a.fewer, b.fewer);
}

-- Nothing is released, and the queue, its object and the acknowledgments are as before.
pub same-Drained :
    (q : List Bytes) (t t' : Drain)
    → IsWholeQueue t.spool t.disk q
    → t'.spool ≡ t.spool
    → t'.disk ≡ t.disk
    → Subset (acknowledged t) (acknowledged t')
    → Drained q t t'
same-Drained q t t' h s d a = record {
  k = 0;
  bound = omega arith;
  kept = rw (s, d) h;
  delivered = λ p m. absurd (not-mem-nil m);
  grown = a;
  committed = omega (arith, ap (λ (u : Spool). u.stats.committed) s);
  dropped = ap (λ (u : Spool). u.stats.dropped) s;
  appended = ap (λ (u : Spool). u.stats.appended) s;
  is_open = ap (λ (u : Spool). u.is_open) s;
  fewer = omega (arith, ap (λ (u : Spool). length u.segments) s);
}

abbrev pub result_of : Next → Drain
result_of (ends t) = t
result_of (goes_on attempt t) = t

-- A round and what follows it, if anything does.
pub next-Drained :
    {q : List Bytes} {t : Drain} (next : Next)
    → Drained q t (result_of next)
    → (onward : ℕ → Drain → Drain)
    → ((attempt : ℕ) (t' : Drain) (a : Drained q t t')
        → Drained (drop a.k q) t' (onward attempt t'))
    → Drained q t (elim next [ ends t' ↦ t' | goes_on attempt t' ↦ onward attempt t' ])
next-Drained (ends t') a onward h = a
next-Drained (goes_on attempt t') a onward h = Drained-trans a (h attempt t' a)

-- A commit of the batch that peek returned.
pub commit-batch :
    (out : Outcome) (n : ℕ) (s : Spool) (d : Disk) (q : List Bytes)
    → IsWholeQueue s d q
    → s.is_open ≡ true
    → 0 < n
    → n ≤ length q
    → Released n q s (committed_by out n s d) ⊎ Released 0 q s (committed_by out n s d)
commit-batch out zero s d q h is_open pos b = absurd (omega arith)
commit-batch out (suc r) s d q h is_open pos b = split h.todo refl
  where
    split :
        (todo : List Bytes)
        → h.todo ≡ todo
        → Released (suc r) q s (committed_by out (suc r) s d)
          ⊎ Released 0 q s (committed_by out (suc r) s d)
    split [] e = inr (commit_none-Released out s d q r h e is_open)
    split (p ∷ ps) e =
        inl (commit-Released out s d q (suc r) h (λ e'. ground (arith, e, e')) is_open pos b)

-- A release of n records, or of none, behind a batch of the oldest n.
pub acked-Drained :
    (n k : ℕ) (q : List Bytes) (t t' : Drain)
    → Released k q t.spool (t'.spool, t'.disk)
    → (k ≡ n) ⊎ (k ≡ 0)
    → n ≤ length q
    → acknowledged t' ≡ acknowledged t ++ take n q
    → Drained q t t'
acked-Drained n k q t t' r which b a = record {
  k = k;
  bound = elim which [ inl e ↦ omega (arith, e) | inr e ↦ omega (arith, e) ];
  kept = r.kept;
  delivered = λ p m. elim which [
    | inl e ↦ rw a (mem-append_right (acknowledged t) (subst (λ (i : ℕ). Mem p (take i q)) e m))
    | inr e ↦ absurd (not-mem-nil (subst (λ (i : ℕ). Mem p (take i q)) e m))
  ];
  grown = λ p m. rw a (mem-append_left (take n q) m);
  committed = r.committed;
  dropped = r.dropped;
  appended = r.appended;
  is_open = r.is_open;
  fewer = r.fewer;
}
