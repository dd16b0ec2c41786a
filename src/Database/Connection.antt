-- ===== src/Database/Connection.antt =====
-- Db::connect and Db::disconnect of src/db_odbc.cpp.
use nano_sensor.Base.{
  ℕ, ◌+◌, ◌-◌, ◌≤◌, ◌≡◌, ◌&&◌, refl, Bool, true, false, Option, none, some, ◌++◌, arith,
  if◌then◌else◌,
}
use nano_sensor.Text.{Bytes, codes}
use nano_sensor.Database.Session.{Return, success, no_data, failed}
use nano_sensor.Database.Runs.{IsShown}

-- The handles that Db::Impl holds, and how many ODBC has given out and not got back.
pub record Connection : Type 0 where
  pub env : Bool
  pub dbc : Bool
  pub connected : Bool
  pub allocated : ℕ

-- Whether ODBC takes each handle back in one disconnect. It keeps the handle of a connection that
-- SQLDisconnect could not close, and an environment with a connection in it; the code looks at no
-- result.
pub record Freeing : Type 0 where
  pub dbc : Bool
  pub env : Bool

-- What the calls of one connect return: whether each handle is given out, SQLDriverConnect with its
-- diagnostic text, from whether there is a handle to connect, and the frees of the disconnect in front
-- and of the one behind a failure.
pub record Dialled : Type 0 where
  pub env : Bool
  pub dbc : Bool
  pub driver : Bool → Return × Bytes
  pub before : Freeing
  pub behind : Freeing

-- SQLFreeHandle on a handle that is held, if any.
abbrev pub free : Bool → Bool → ℕ → ℕ
free held taken_back n = if held && taken_back then n - 1 else n

-- The members are reset whatever the calls return.
unfoldable pub disconnect : Freeing → Connection → Connection
disconnect f c = record {
  env = false;
  dbc = false;
  connected = false;
  allocated = free c.env f.env (free c.dbc f.dbc c.allocated);
}

abbrev pub connected_with : Freeing → Connection → Return × Bytes → Option Bytes × Connection
connected_with f c (success, d) = (none, record c { connected = true })
connected_with f c (no_data, d) = (some (codes "connect: " ++ d), disconnect f c)
connected_with f c (failed, d) = (some (codes "connect: " ++ d), disconnect f c)

abbrev pub with_handle : Bool → ℕ → ℕ
with_handle given n = if given then n + 1 else n

abbrev pub connect_env : Bool → Dialled → Connection → Option Bytes × Connection
connect_env false dialled c = (some (codes "SQLAllocHandle(ENV) failed"), c)
connect_env true dialled c =
    connected_with dialled.behind
      (record c {
        env = true;
        dbc = dialled.dbc;
        allocated = with_handle dialled.dbc (c.allocated + 1);
      })
      (dialled.driver dialled.dbc)

-- The error, if any, and the connection.
unfoldable pub connect : Dialled → Connection → Option Bytes × Connection
connect dialled c = connect_env dialled.env dialled (disconnect dialled.before c)

-- The handles that are given out are the ones that are held, and `lost` others; a connection holds
-- both.
pub record IsSound (lost : ℕ) (c : Connection) : Type 0 where
  pub counted : c.allocated ≡ (if c.env then 1 else 0) + (if c.dbc then 1 else 0) + lost
  pub held : c.connected ≡ true → (c.env ≡ true) × (c.dbc ≡ true)

-- The frees of one disconnect that fail.
abbrev pub refusals : Freeing → ℕ
refusals f = (if f.dbc then 0 else 1) + (if f.env then 0 else 1)

disconnect-counted :
    (f : Freeing) (c : Connection) (lost : ℕ)
    → c.allocated ≡ (if c.env then 1 else 0) + (if c.dbc then 1 else 0) + lost
    → (lost ≤ (disconnect f c).allocated) × ((disconnect f c).allocated ≤ lost + refusals f)
unfolding disconnect
disconnect-counted f c lost h = (ground (arith, h), ground (arith, h))

-- What connect leaves: a connection that holds two handles, or none and an error text.
abbrev pub Connects : ℕ → Option Bytes × Connection → Type 0
Connects lost (none, c) = (c.connected ≡ true) × (c.allocated ≡ 2 + lost) × IsSound lost c
Connects lost (some e, c) =
    (c.connected ≡ false) × (c.allocated ≡ lost) × IsSound lost c × IsShown e

gone-IsSound : (f : Freeing) (c : Connection) → IsSound (disconnect f c).allocated (disconnect f c)
unfolding disconnect
gone-IsSound f c = record { counted = ground arith; held = λ on. absurd (ground arith) }

-- At most `refused` more handles are lost than before.
abbrev LosesAtMost : ℕ → ℕ → Option Bytes × Connection → Type 0
LosesAtMost lost refused r = (now : ℕ) × (lost ≤ now) × (now ≤ lost + refused) × Connects now r

unconnected :
    (f : Freeing) (given : Bool) (n : ℕ) (d : Bytes)
    → let c : Connection = record {
      env = true;
      dbc = given;
      connected = false;
      allocated = with_handle given (n + 1);
    } in
      LosesAtMost n (refusals f) (some (codes "connect: " ++ d), disconnect f c)
unfolding disconnect
unconnected f given n d =
    let c : Connection = record {
      env = true;
      dbc = given;
      connected = false;
      allocated = with_handle given (n + 1);
    } in
    let (low, high) = disconnect-counted f c n (ground arith) in
    ((disconnect f c).allocated, low, high, (refl, refl, gone-IsSound f c, tt))

driver_cases :
    (f : Freeing) (given : Bool) (r : Return × Bytes) (n : ℕ)
    → (given ≡ false → r.0 ≡ failed)
    → LosesAtMost n (refusals f) (
        connected_with f
          (record {
            env = true;
            dbc = given;
            connected = false;
            allocated = with_handle given (n + 1);
          })
          r)
driver_cases f true (success, d) n h = (
  n,
  omega arith,
  omega arith,
  (refl, omega arith, record { counted = omega arith; held = λ on. (refl, refl) }),
)
driver_cases f false (success, d) n h = absurd (ground (arith, h refl))
driver_cases f given (no_data, d) n h = unconnected f given n d
driver_cases f given (failed, d) n h = unconnected f given n d

env_cases :
    (given : Bool) (dialled : Dialled) (n : ℕ)
    → (dialled.driver false).0 ≡ failed
    → LosesAtMost n (refusals dialled.behind) (
        connect_env given dialled
          (record { env = false; dbc = false; connected = false; allocated = n }))
env_cases false dialled n null = (
  n,
  omega arith,
  omega arith,
  (refl, refl, record { counted = omega arith; held = λ on. absurd (ground arith) }, tt),
)
env_cases true dialled n null =
    driver_cases dialled.behind dialled.dbc (dialled.driver dialled.dbc) n
      (λ none_given. rw none_given null)

-- Whatever connection was there, connect ends connected and holding two handles, or unconnected and
-- holding none, with an error text. Of the handles that ODBC has given out, no more are lost than were
-- before and than SQLFreeHandle refused to take back in the two disconnects; where it takes all
-- back, connect leaks none. ODBC connects no null handle.
pub connect-Connects :
    (dialled : Dialled) (c : Connection) (lost : ℕ)
    → IsSound lost c
    → (dialled.driver false).0 ≡ failed
    → (now : ℕ) × (lost ≤ now)
      × (now ≤ lost + (refusals dialled.before + refusals dialled.behind))
      × Connects now (connect dialled c)
unfolding connect
connect-Connects dialled c lost sound null =
    let (low, high) = disconnect-counted dialled.before c lost sound.counted in
    let (now, low', high', done) =
      env_cases dialled.env dialled (disconnect dialled.before c).allocated null in
    (now, omega (arith, low, low'), omega (arith, high, high'), unfold disconnect in done)
