-- ===== src/Report/Accounting.antt =====
-- What appends and drains in turn do to the queue of the spool, as cmd_run of src/main.cpp runs them.
use nano_sensor.Base.{
  ℕ, suc, ◌+◌, ◌≤◌, ◌≡◌, sym, ap, ◌∙◌, List, [], ◌∷◌, ◌++◌, arith, length, take, drop,
  length-append, length-take, length-drop, take_short, drop_short,
}
use native.Mathlib.Nat.{zero-add, suc-add}
use mathlib.Core.Path.{subst}
use mathlib.Core.List.{
  append_assoc, Mem, Subset, mem-cons_self, mem-cons_of_mem, mem-append_left, mem-append_right,
}
use nano_sensor.Text.{Bytes}
use nano_sensor.Spool.Queue.{Spool, Disk, stats}
use nano_sensor.Spool.Whole.{IsWholeQueue}
use nano_sensor.Spool.Accept.{Appended}
use nano_sensor.Report.Drain.{Drain, start}
use nano_sensor.Report.Running.{refreshed}
use nano_sensor.Report.Drained.{acknowledged, Drained, drop-drop, take_sum}

-- Of the records that are gone, n were dropped, and each of the others is in `acked`.
pub data Gone : ℕ → List Bytes → List Bytes → Type 0 where
  none_gone : {acked : List Bytes} → Gone 0 [] acked
  delivered :
      {p : Bytes} {n : ℕ} {ps acked : List Bytes}
      → Mem p acked
      → Gone n ps acked
      → Gone n (p ∷ ps) acked
  dropped :
      {p : Bytes} {n : ℕ} {ps acked : List Bytes} → Gone n ps acked → Gone (suc n) (p ∷ ps) acked

Gone-append :
    {n m : ℕ} {ps qs acked : List Bytes}
    → Gone n ps acked
    → Gone m qs acked
    → Gone (n + m) (ps ++ qs) acked
Gone-append none_gone h = rw zero-add h
Gone-append (delivered m g) h = delivered m (Gone-append g h)
Gone-append (dropped g) h = rw suc-add (dropped (Gone-append g h))

Gone-grown :
    {n : ℕ} {ps acked more : List Bytes} → Subset acked more → Gone n ps acked → Gone n ps more
Gone-grown s none_gone = none_gone
Gone-grown s (delivered {p} m g) = delivered (s p m) (Gone-grown s g)
Gone-grown s (dropped g) = dropped (Gone-grown s g)

Gone-Subset : (ps acked : List Bytes) → Subset ps acked → Gone 0 ps acked
Gone-Subset [] acked s = none_gone
Gone-Subset (p ∷ ps) acked s =
    delivered (s p mem-cons_self) (Gone-Subset ps acked (λ r m. s r (mem-cons_of_mem p m)))

Gone-all : (ps acked : List Bytes) → Gone (length ps) ps acked
Gone-all [] acked = none_gone
Gone-all (p ∷ ps) acked = dropped (Gone-all ps acked)

-- From s to the object and disk of r the records `new` joined the queue q, and the oldest n of all
-- these left it: `lost` of them were dropped and counted, and the others are in `acked`.
pub record Accounted (q new acked : List Bytes) (s : Spool) (r : Spool × Disk) : Type 0 where
  pub n : ℕ
  pub lost : ℕ
  pub bound : n ≤ length (q ++ new)
  pub kept : IsWholeQueue r.0 r.1 (drop n (q ++ new))
  pub gone : Gone lost (take n (q ++ new)) acked
  pub dropped : r.0.stats.dropped ≡ s.stats.dropped + lost
  pub committed : r.0.stats.committed + lost ≡ s.stats.committed + n
  pub appended : r.0.stats.appended ≡ s.stats.appended + length new
  pub is_open : r.0.is_open ≡ s.is_open

-- The records of a later run behind those that are left.
left_behind :
    (n : ℕ) (q new later : List Bytes)
    → n ≤ length (q ++ new)
    → drop n (q ++ new) ++ later ≡ drop n (q ++ (new ++ later))
left_behind n q new later h =
    sym (drop_short n (q ++ new) later h)
    ∙ ap (λ (l : List Bytes). drop n l) (append_assoc q new later)

gone_before :
    (n m : ℕ) (q new later : List Bytes)
    → n ≤ length (q ++ new)
    → take n (q ++ new) ++ take m (drop n (q ++ new) ++ later) ≡ take (n + m) (q ++ (new ++ later))
gone_before n m q new later h =
    rw (left_behind n q new later h, ← take_short n (q ++ new) later h, append_assoc q new later)
      (sym (take_sum m n (q ++ (new ++ later))))

pub Accounted-trans :
    {q new later acked more : List Bytes} {s : Spool} {r r' : Spool × Disk}
    (a : Accounted q new acked s r)
    → Accounted (drop a.n (q ++ new)) later more r.0 r'
    → Accounted q (new ++ later) (acked ++ more) s r'
Accounted-trans {q} {new} {later} {acked} {more} {s} {r} {r'} a b = record {
  n = a.n + b.n;
  lost = a.lost + b.lost;
  bound = omega (
    arith,
    a.bound,
    b.bound,
    length-append (drop a.n (q ++ new)) later,
    length-drop a.n (q ++ new),
    length-append q new,
    length-append q (new ++ later),
    length-append new later,
  );
  kept =
      subst (λ (l : List Bytes). IsWholeQueue r'.0 r'.1 l)
        (ap (λ (l : List Bytes). drop b.n l) (left_behind a.n q new later a.bound)
          ∙ drop-drop b.n a.n (q ++ (new ++ later)))
        b.kept;
  gone =
      subst (λ (l : List Bytes). Gone (a.lost + b.lost) l (acked ++ more))
        (gone_before a.n b.n q new later a.bound)
        (Gone-append (Gone-grown (λ p m. mem-append_left more m) a.gone)
          (Gone-grown (λ p m. mem-append_right acked m) b.gone));
  dropped = omega (arith, a.dropped, b.dropped);
  committed = omega (arith, a.committed, b.committed);
  appended = omega (arith, a.appended, b.appended, length-append new later);
  is_open = b.is_open ∙ a.is_open;
}

-- An append, and a drain of what it leaves.
pub cycle-Accounted :
    {q : List Bytes} {p : Bytes} {s : Spool} {r : Spool × Disk} {t : Drain} (a : Appended q p s r)
    → Drained (drop a.k (q ++ (p ∷ []))) (start r.0 r.1) t
    → Accounted q (p ∷ []) (acknowledged t) s (t.spool, t.disk)
cycle-Accounted {q} {p} {s} {r} {t} a b =
    let l : List Bytes = q ++ (p ∷ []) in
    let size : a.k ≤ length l = omega (arith, a.newest_stays, length-append q (p ∷ [])) in
    record {
      n = a.k + b.k;
      lost = a.k + 0;
      bound = omega (arith, b.bound, length-drop a.k l, size);
      kept = subst (λ (m : List Bytes). IsWholeQueue t.spool t.disk m) (drop-drop b.k a.k l) b.kept;
      gone =
          subst (λ (m : List Bytes). Gone (a.k + 0) m (acknowledged t)) (sym (take_sum b.k a.k l))
            (Gone-append
              (subst (λ (m : ℕ). Gone m (take a.k l) (acknowledged t))
                (omega (arith, size, length-take a.k l)) (Gone-all (take a.k l) (acknowledged t)))
              (Gone-Subset (take b.k (drop a.k l)) (acknowledged t) b.delivered));
      dropped = omega (arith, a.dropped, b.dropped);
      committed = omega (arith, a.committed, b.committed);
      appended = omega (arith, a.appended, b.appended);
      is_open = b.is_open ∙ a.is_open;
    }

-- The counters of a drain are brought up to date without a change to the queue.
pub refreshed-Drained :
    {q : List Bytes} {t : Drain} (t' : Drain) → Drained q t t' → Drained q t (refreshed t')
unfolding stats
refreshed-Drained t' b = record {
  k = b.k;
  bound = b.bound;
  kept = record {
    id = b.kept.id;
    done = b.kept.done;
    todo = b.kept.todo;
    gs = b.kept.gs;
    laid = record {
      segments = b.kept.laid.segments;
      cursor = b.kept.laid.cursor;
      offset = b.kept.laid.offset;
      file = b.kept.laid.file;
      is_tail = b.kept.laid.is_tail;
      fits = b.kept.laid.fits;
      chain = b.kept.laid.chain;
    };
    queue = b.kept.queue;
    whole = b.kept.whole;
    fresh = b.kept.fresh;
  };
  delivered = b.delivered;
  grown = b.grown;
  committed = b.committed;
  dropped = b.dropped;
  appended = b.appended;
  is_open = b.is_open;
  fewer = b.fewer;
}
