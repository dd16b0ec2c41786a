-- ===== src/Pipe/Accepting.antt =====
-- The acceptor and the clients of Server::Impl of src/ipc_windows.cpp, as steps.
use nano_sensor.Base.{ℕ, suc, ◌+◌, ◌-◌, ◌<◌, ◌≡◌, Bool, true, false, List, [], ◌∷◌}

-- kMaxInstances
abbrev pub max_instances : ℕ
max_instances = 8

-- What the acceptor does in a round: it waits in ConnectNamedPipe, creates the next instance, and
-- gives the one that is connected to a thread, or closes it where no client came.
pub data Act : Type 0 where
  connect create hand_off close : Act

abbrev pub last_act : Bool → Act
last_act true = hand_off
last_act false = close

unfoldable pub accept_round : Bool → List Act
accept_round connected = connect ∷ create ∷ last_act connected ∷ []

-- The instances of the pipe, those that threads serve, those that the acceptor holds, what is left of
-- its round, and the flag.
pub record Pipe : Type 0 where
  pub instances : ℕ
  pub served : ℕ
  pub held : ℕ
  pub round : List Act
  pub stopping : Bool

-- Behind Server::start: one instance, on which the acceptor waits.
abbrev pub started : Bool → Pipe
started connected = record {
  instances = 1;
  served = 0;
  held = 1;
  round = accept_round connected;
  stopping = false;
}

pub data Step : Pipe → Pipe → Type 0 where
  -- A client connects, or ConnectNamedPipe fails.
  connected :
      (p : Pipe) (rest : List Act)
      → p.stopping ≡ false
      → p.round ≡ connect ∷ rest
      → Step p (record p { round = rest })
  -- create_instance succeeds while there are fewer than kMaxInstances.
  created :
      (p : Pipe) (rest : List Act)
      → p.round ≡ create ∷ rest
      → p.instances < max_instances
      → Step p (record p { instances = p.instances + 1; held = p.held + 1; round = rest })
  -- It fails, and the acceptor sleeps and tries again.
  refused : (p : Pipe) (rest : List Act) → p.stopping ≡ false → p.round ≡ create ∷ rest → Step p p
  -- It fails while the server stops.
  given_up :
      (p : Pipe) (rest : List Act)
      → p.stopping ≡ true
      → p.round ≡ create ∷ rest
      → Step p (record p { round = rest })
  handed_off :
      (p : Pipe) (rest : List Act)
      → p.round ≡ hand_off ∷ rest
      → Step p (record p { held = p.held - 1; served = p.served + 1; round = rest })
  closed :
      (p : Pipe) (rest : List Act)
      → p.round ≡ close ∷ rest
      → Step p (record p { held = p.held - 1; instances = p.instances - 1; round = rest })
  -- The next round of the loop.
  again :
      (p : Pipe) (comes : Bool)
      → p.stopping ≡ false
      → p.round ≡ []
      → Step p (record p { round = accept_round comes })
  -- A thread is done with its client and has closed the instance.
  finished :
      (p : Pipe) (n : ℕ)
      → p.served ≡ suc n
      → Step p (record p { served = n; instances = p.instances - 1 })
  -- Server::stop
  stop : (p : Pipe) → Step p (record p { stopping = true })
  -- The loop ends behind its wait or behind a round, and closes the instance it holds.
  left_wait :
      (p : Pipe) (rest : List Act)
      → p.stopping ≡ true
      → p.round ≡ connect ∷ rest
      → Step p (record p { instances = p.instances - p.held; held = 0; round = [] })
  left_round :
      (p : Pipe)
      → p.stopping ≡ true
      → p.round ≡ []
      → Step p (record p { instances = p.instances - p.held; held = 0 })

pub data Reach (p : Pipe) : Pipe → Type 0 where
  here : Reach p p
  next : {q r : Pipe} → Reach p q → Step q r → Reach p r
