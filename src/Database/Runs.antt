-- ===== src/Database/Runs.antt =====
-- What a run of calls adds to the open transaction of src/db_odbc.cpp, one rule for each way to
-- build one.
use mathlib.Core.List.{append-nil, append_assoc}
use nano_sensor.Base.{◌≡◌, refl, false, List, [], ◌∷◌, ◌++◌}
use nano_sensor.Text.{Bytes}
use nano_sensor.Database.Session.{
  Param, Statement, Link, Result, ok, err, Action, pure, raise, continue, ◌>>=◌, labelled, relabel,
}
use nano_sensor.Database.Engine.{Tables, step, tables}

abbrev pub Rows : Type 0
Rows = List (Statement × List Param)

-- The transaction has grown by `rows`.
pub record Adds (rows : Rows) (t t' : Tables) : Type 0 where
  pub durable : t'.durable ≡ t.durable
  pub pending : t'.pending ≡ t.pending ++ rows
  pub autocommit : t'.autocommit ≡ false

pub Adds-nothing : (t : Tables) → t.autocommit ≡ false → Adds [] t t
Adds-nothing t off = record {
  durable = refl;
  pending = rw (append-nil t.pending);
  autocommit = off;
}

pub Adds-trans :
    {u v : Rows} {t t' t'' : Tables} → Adds u t t' → Adds v t' t'' → Adds (u ++ v) t t''
Adds-trans {u} {v} {t} a b = record {
  durable = cc;
  pending = rw (b.pending, a.pending, append_assoc t.pending u v);
  autocommit = b.autocommit;
}

-- The error text is not empty.
abbrev pub IsShown : Bytes → Type 0
IsShown [] = ⊥
IsShown (c ∷ cs) = Unit

abbrev pub IsAny : Bytes → Type 0
IsAny e = Unit

abbrev pub Holds : {A : Type 0} → (Bytes → Type 0) → (A → Rows → Type 0) → Result A → Rows → Type 0
Holds E Q (ok a) rows = Q a rows
Holds E Q (err e) rows = E e

abbrev pub Ended :
    {A : Type 0}
    → (Bytes → Type 0)
    → (A → Rows → Type 0)
    → Tables
    → Tables
    → Result A × Link
    → Type 0
Ended E Q t0 t (r, l) = (rows : Rows) × Adds rows t (tables t0 l.calls) × Holds E Q r rows

-- From an open transaction `m` adds rows as `Q` says, or ends with an error as `E` says.
pub record Runs {A : Type 0} (E : Bytes → Type 0) (Q : A → Rows → Type 0) (m : Action A)
    : Type 0 where
  pub at :
      (t0 : Tables) (l : Link)
      → (tables t0 l.calls).autocommit ≡ false
      → Ended E Q t0 (tables t0 l.calls) (m l)

abbrev pub Silent : {A : Type 0} → A → Rows → Type 0
Silent a rows = rows ≡ []

module _ {A : Type 0} {E : Bytes → Type 0} where
  pub Runs-pure : (Q : A → Rows → Type 0) (a : A) → Q a [] → Runs E Q (pure a)
  Runs-pure Q a q = record { at = λ t0 l off. ([], Adds-nothing (tables t0 l.calls) off, q) }

  pub Runs-raise : (Q : A → Rows → Type 0) (e : Bytes) → E e → Runs E Q (raise {A = A} e)
  Runs-raise Q e shown = record {
    at = λ t0 l off. ([], Adds-nothing (tables t0 l.calls) off, shown);
  }

Ended-join :
    {A B : Type 0} (E : Bytes → Type 0) (R : A → B → Rows → Type 0) (S : B → Rows → Type 0)
    (t0 : Tables) (a : A) {t t' : Tables} (u : Rows)
    → Adds u t t'
    → ((b : B) (v : Rows) → R a b v → S b (u ++ v))
    → (p : Result B × Link) → Ended E (R a) t0 t' p
    → Ended E S t0 t p
Ended-join E R S t0 a u adds join (ok b, l) (v, more, r) =
    (u ++ v, Adds-trans adds more, join b v r)
Ended-join E R S t0 a u adds join (err e, l) (v, more, shown) =
    (u ++ v, Adds-trans adds more, shown)

module _ {A B : Type 0} {E : Bytes → Type 0} (Q : A → Rows → Type 0) (R : A → B → Rows → Type 0)
    (S : B → Rows → Type 0) where
  Ended-continue :
      (f : A → Action B)
      → ((a : A) → Runs E (R a) (f a))
      → ((a : A) (b : B) (u v : Rows) → Q a u → R a b v → S b (u ++ v))
      → (t0 t : Tables) (r : Result A) (l : Link) → Ended E Q t0 t (r, l)
      → Ended E S t0 t (continue r f l)
  Ended-continue f kf join t0 t (err e) l ended = ended
  Ended-continue f kf join t0 t (ok a) l (u, adds, q) =
      Ended-join E R S t0 a u adds (λ b v r. join a b u v q r) (f a l)
        ((kf a).at t0 l adds.autocommit)

  pub Runs-bind :
      (m : Action A) (f : A → Action B)
      → Runs E Q m
      → ((a : A) → Runs E (R a) (f a))
      → ((a : A) (b : B) (u v : Rows) → Q a u → R a b v → S b (u ++ v))
      → Runs E S (m >>= f)
  Runs-bind m f km kf join = record {
    at = λ t0 l off.
        Ended-continue f kf join t0 (tables t0 l.calls) (m l).0 (m l).1 (km.at t0 l off);
  }

-- A first part that adds no rows.
pub Runs-then :
    {A B : Type 0} {E : Bytes → Type 0} (S : B → Rows → Type 0) (m : Action A) (f : A → Action B)
    → Runs E Silent m
    → ((a : A) → Runs E S (f a))
    → Runs E S (m >>= f)
Runs-then S m f km kf = Runs-bind Silent (λ a. S) S m f km kf (λ a b u v e s. rw e s)

-- A last part that adds no rows.
pub Runs-before :
    {A B : Type 0} {E : Bytes → Type 0} (Q : Rows → Type 0) (m : Action A) (f : A → Action B)
    → Runs E (λ a. Q) m
    → ((a : A) → Runs E Silent (f a))
    → Runs E (λ b. Q) (m >>= f)
Runs-before Q m f km kf =
    Runs-bind (λ a. Q) (λ a. Silent) (λ b. Q) m f km kf (λ a b u v q e. rw (e, append-nil u) q)

weaken-Ended :
    {A : Type 0} (E : Bytes → Type 0) (Q : A → Rows → Type 0) (t0 t : Tables) (p : Result A × Link)
    → Ended E Q t0 t p
    → Ended IsAny Q t0 t p
weaken-Ended E Q t0 t (ok a, l) ended = ended
weaken-Ended E Q t0 t (err e, l) (rows, adds, h) = (rows, adds, tt)

pub Runs-weaken :
    {A : Type 0} {E : Bytes → Type 0} {Q : A → Rows → Type 0} {m : Action A}
    → Runs E Q m
    → Runs IsAny Q m
Runs-weaken {E} {Q} {m} k = record {
  at = λ t0 l off. weaken-Ended E Q t0 (tables t0 l.calls) (m l) (k.at t0 l off);
}

imply-Ended :
    {A : Type 0} (E : Bytes → Type 0) (Q R : A → Rows → Type 0) (t0 t : Tables)
    → ((a : A) (rows : Rows) → Q a rows → R a rows)
    → (p : Result A × Link) → Ended E Q t0 t p
    → Ended E R t0 t p
imply-Ended E Q R t0 t step (ok a, l) (rows, adds, q) = (rows, adds, step a rows q)
imply-Ended E Q R t0 t step (err e, l) ended = ended

pub Runs-imply :
    {A : Type 0} {E : Bytes → Type 0} (Q R : A → Rows → Type 0) {m : Action A}
    → ((a : A) (rows : Rows) → Q a rows → R a rows)
    → Runs E Q m
    → Runs E R m
Runs-imply {E} Q R {m} step k = record {
  at = λ t0 l off. imply-Ended E Q R t0 (tables t0 l.calls) step (m l) (k.at t0 l off);
}

-- Whatever follows it, the text shows.
abbrev pub IsLabel : Bytes → Type 0
IsLabel what = (e : Bytes) → IsShown (what ++ e)

relabel-Ended :
    {A : Type 0} (E : Bytes → Type 0) (Q : A → Rows → Type 0) (what : Bytes)
    → IsLabel what
    → (t0 t : Tables) (p : Result A × Link) → Ended E Q t0 t p
    → Ended IsShown Q t0 t (relabel what p.0, p.1)
relabel-Ended E Q what shown t0 t (ok a, l) ended = ended
relabel-Ended E Q what shown t0 t (err e, l) (rows, adds, h) = (rows, adds, shown e)

-- A label makes the error text visible.
pub Runs-labelled :
    {A : Type 0} {E : Bytes → Type 0} (Q : A → Rows → Type 0) (what : Bytes) (m : Action A)
    → IsLabel what
    → Runs E Q m
    → Runs IsShown Q (labelled what m)
Runs-labelled {E} Q what m shown k = record {
  at = λ t0 l off. relabel-Ended E Q what shown t0 (tables t0 l.calls) (m l) (k.at t0 l off);
}
