-- ===== src/Pipe/Instances.antt =====
-- The instances of the pipe of src/ipc_windows.cpp while clients come and go.
use nano_sensor.Base.{ℕ, ◌+◌, ◌≤◌, ◌≡◌, refl, sym, ◌∙◌, Bool, true, false, List, [], ◌∷◌, arith}
use nano_sensor.Pipe.Accepting.{
  max_instances, Act, connect, create, last_act, accept_round, Pipe, started, Step, connected,
  created, refused, given_up, handed_off, closed, again, finished, stop, left_wait, left_round,
  Reach, here, next,
}

-- Where the acceptor stands in its round, and whether a client came in it.
pub data Point : Type 0 where
  idle : Point
  waiting creating ending : Bool → Point

abbrev pub acts : Point → List Act
acts idle = []
acts (waiting b) = connect ∷ create ∷ last_act b ∷ []
acts (creating b) = create ∷ last_act b ∷ []
acts (ending b) = last_act b ∷ []

-- The instances that the acceptor holds there, and the fewest that it can hold while the server stops.
abbrev pub holds : Point → ℕ
holds idle = 1
holds (waiting b) = 1
holds (creating b) = 1
holds (ending b) = 2

abbrev pub least : Point → ℕ
least idle = 0
least (waiting b) = 1
least (creating b) = 1
least (ending b) = 1

pub record IsSound (t : Point) (p : Pipe) : Type 0 where
  pub acceptor : p.round ≡ acts t
  pub counted : p.instances ≡ p.served + p.held
  pub bounded : p.instances ≤ max_instances
  pub running : p.stopping ≡ false → p.held ≡ holds t
  pub at_least : least t ≤ p.held

started-IsSound : (comes : Bool) → IsSound (waiting comes) (started comes)
unfolding accept_round
started-IsSound comes = record {
  acceptor = refl;
  counted = refl;
  bounded = omega arith;
  running = λ h. refl;
  at_least = omega arith;
}

-- The point behind the first act of a round.
abbrev pub behind : Point → Point
behind idle = idle
behind (waiting b) = creating b
behind (creating b) = ending b
behind (ending b) = idle

at_connect :
    (t : Point) {rest : List Act}
    → acts t ≡ connect ∷ rest
    → (b : Bool) × (t ≡ waiting b) × (rest ≡ acts (creating b))
at_connect idle h = absurd (ground (arith, h))
at_connect (waiting b) h = (b, refl, ground (arith, h))
at_connect (creating b) h = absurd (ground (arith, h))
at_connect (ending true) h = absurd (ground (arith, h))
at_connect (ending false) h = absurd (ground (arith, h))

at_create :
    (t : Point) {rest : List Act}
    → acts t ≡ create ∷ rest
    → (b : Bool) × (t ≡ creating b) × (rest ≡ acts (ending b))
at_create idle h = absurd (ground (arith, h))
at_create (waiting b) h = absurd (ground (arith, h))
at_create (creating b) h = (b, refl, ground (arith, h))
at_create (ending true) h = absurd (ground (arith, h))
at_create (ending false) h = absurd (ground (arith, h))

at_last :
    (t : Point) (b : Bool) {rest : List Act}
    → acts t ≡ last_act b ∷ rest
    → (t ≡ ending b) × (rest ≡ [])
at_last idle b h = absurd (ground (arith, h))
at_last (waiting c) true h = absurd (ground (arith, h))
at_last (waiting c) false h = absurd (ground (arith, h))
at_last (creating c) true h = absurd (ground (arith, h))
at_last (creating c) false h = absurd (ground (arith, h))
at_last (ending true) true h = (refl, ground (arith, h))
at_last (ending false) false h = (refl, ground (arith, h))
at_last (ending true) false h = absurd (ground (arith, h))
at_last (ending false) true h = absurd (ground (arith, h))

at_end : (t : Point) → acts t ≡ [] → t ≡ idle
at_end idle h = refl
at_end (waiting b) h = absurd (ground (arith, h))
at_end (creating b) h = absurd (ground (arith, h))
at_end (ending b) h = absurd (ground (arith, h))

Step-IsSound : (t : Point) {p q : Pipe} → Step p q → IsSound t p → (t' : Point) × IsSound t' q
unfolding accept_round
Step-IsSound t (connected p rest on e) s =
    let (b, at, r) = at_connect t (sym s.acceptor ∙ e) in
    let s' : IsSound (waiting b) p = rw at at s in
    (
      creating b,
      record {
        acceptor = r;
        counted = s.counted;
        bounded = s.bounded;
        running = s'.running;
        at_least = s'.at_least;
      },
    )
Step-IsSound t (created p rest e room) s =
    let (b, at, r) = at_create t (sym s.acceptor ∙ e) in
    let s' : IsSound (creating b) p = rw at at s in
    (
      ending b,
      record {
        acceptor = r;
        counted = omega (arith, s.counted);
        bounded = omega arith;
        running = λ h. omega (arith, s'.running h);
        at_least = omega arith;
      },
    )
Step-IsSound t (refused p rest on e) s = (t, s)
Step-IsSound t (given_up p rest off e) s =
    let (b, at, r) = at_create t (sym s.acceptor ∙ e) in
    let s' : IsSound (creating b) p = rw at at s in
    (
      ending b,
      record {
        acceptor = r;
        counted = s.counted;
        bounded = s.bounded;
        running = λ h. absurd (ground (arith, off, h));
        at_least = s'.at_least;
      },
    )
Step-IsSound t (handed_off p rest e) s =
    let (at, r) = at_last t true (sym s.acceptor ∙ e) in
    let s' : IsSound (ending true) p = rw at at s in
    (
      idle,
      record {
        acceptor = r;
        counted = omega (arith, s.counted, s'.at_least);
        bounded = s.bounded;
        running = λ h. omega (arith, s'.running h);
        at_least = omega arith;
      },
    )
Step-IsSound t (closed p rest e) s =
    let (at, r) = at_last t false (sym s.acceptor ∙ e) in
    let s' : IsSound (ending false) p = rw at at s in
    (
      idle,
      record {
        acceptor = r;
        counted = omega (arith, s.counted, s'.at_least);
        bounded = omega (arith, s.bounded);
        running = λ h. omega (arith, s'.running h);
        at_least = omega arith;
      },
    )
Step-IsSound t (again p comes on e) s =
    let s' : IsSound idle p = rw (at_end t (sym s.acceptor ∙ e)) at s in
    (
      waiting comes,
      record {
        acceptor = refl;
        counted = s.counted;
        bounded = s.bounded;
        running = s'.running;
        at_least = omega (arith, s'.running on);
      },
    )
Step-IsSound t (finished p n e) s = (
  t,
  record {
    acceptor = s.acceptor;
    counted = omega (arith, s.counted, e);
    bounded = omega (arith, s.bounded);
    running = s.running;
    at_least = s.at_least;
  },
)
Step-IsSound t (stop p) s = (
  t,
  record {
    acceptor = s.acceptor;
    counted = s.counted;
    bounded = s.bounded;
    running = λ h. absurd (ground (arith, h));
    at_least = s.at_least;
  },
)
Step-IsSound t (left_wait p rest off e) s = (
  idle,
  record {
    acceptor = refl;
    counted = omega (arith, s.counted);
    bounded = omega (arith, s.bounded);
    running = λ h. absurd (ground (arith, off, h));
    at_least = omega arith;
  },
)
Step-IsSound t (left_round p off e) s = (
  idle,
  record {
    acceptor = e;
    counted = omega (arith, s.counted);
    bounded = omega (arith, s.bounded);
    running = λ h. absurd (ground (arith, off, h));
    at_least = omega arith;
  },
)

Reach-IsSound : (comes : Bool) {p : Pipe} → Reach (started comes) p → (t : Point) × IsSound t p
Reach-IsSound comes here = (waiting comes, started-IsSound comes)
Reach-IsSound comes (next r st) = let (t, s) = Reach-IsSound comes r in Step-IsSound t st s

holds-pos : (t : Point) → 1 ≤ holds t
holds-pos idle = omega arith
holds-pos (waiting b) = omega arith
holds-pos (creating b) = omega arith
holds-pos (ending b) = omega arith

-- However clients come, are served and go, and however often the creation of an instance fails: until
-- Server::stop the pipe has an instance that the acceptor holds, so it never goes without one, and it
-- never has more than 8, of which 7 at most are served.
pub instances_bounds :
    (comes : Bool) {p : Pipe}
    → Reach (started comes) p
    → p.stopping ≡ false
    → (1 ≤ p.held) × (p.served + p.held ≡ p.instances) × (p.instances ≤ 8) × (p.served ≤ 7)
instances_bounds comes {p} r on =
    let (t, s) = Reach-IsSound comes r in
    let held : 1 ≤ p.held = omega (arith, s.running on, holds-pos t) in
    (held, sym s.counted, s.bounded, omega (arith, s.counted, s.bounded))
