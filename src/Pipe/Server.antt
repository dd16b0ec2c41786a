-- ===== src/Pipe/Server.antt =====
-- One request over the pipe, and the start of the server, of src/ipc_windows.cpp.
use nano_sensor.Base.{ℕ, Bool, true, false, Option, none, some, [], ◌∷◌, ◌++◌, ◌==◌, if◌then◌else◌}
use nano_sensor.Base.Int.{pos}
use nano_sensor.Text.{Bytes, codes}
use nano_sensor.Json.{print_i64}

unfoldable pub win_error : Bytes → ℕ → Bytes
win_error what e =
    what
    ++ (codes " failed, error "
        ++ (print_i64 (pos e) ++ (if e == 5 then codes " (access denied)" else [])))

unfoldable pub default_sddl : Bytes
default_sddl = codes "D:P(D;;GA;;;NU)(A;;GA;;;SY)(A;;GA;;;BA)(A;;GA;;;OW)"

-- The name of the account behind a SID, or the error of the look-up.
pub data Account : Type 0 where
  unknown : ℕ → Account
  account : Bytes → Bytes → Account

-- Whose token the client has: it cannot be impersonated, its SID cannot be read, or it has one.
pub data Token : Type 0 where
  not_impersonated unread : ℕ → Token
  token : Account → Token

abbrev pub account_name : Account → Bytes
account_name (unknown e) = codes "?(lookup " ++ (print_i64 (pos e) ++ codes ")")
account_name (account domain name) = domain ++ (92 ∷ name)

-- The user; none where RevertToSelf fails and the process is ended.
unfoldable pub client_user : Bool → Token → Option Bytes
client_user reverts (not_impersonated e) =
    some (codes "?(impersonate " ++ (print_i64 (pos e) ++ codes ")"))
client_user false t = none
client_user true (unread e) = some (codes "?(token " ++ (print_i64 (pos e) ++ codes ")"))
client_user true (token a) = some (account_name a)

pub record ClientInfo : Type 0 where
  pub pid : ℕ
  pub user : Bytes

-- What the first ReadFile brings: a request of at most 4096 bytes, part of a longer one, or an error.
pub data Request : Type 0 where
  request : Bytes → Request
  more_data broken : Request

-- What one client meets: its request, its process if it is known, its token, and whether
-- RevertToSelf succeeds.
pub record Client : Type 0 where
  pub request : Request
  pub pid : Option ℕ
  pub reverts : Bool
  pub token : Token

-- What was written to the client, and whether the handler was called; the instance is closed.
pub record Served : Type 0 where
  pub written : Bytes
  pub handled : Bool

abbrev pub pid_or : Option ℕ → ℕ
pid_or none = 0
pid_or (some pid) = pid

module _ (handler : Bytes → ClientInfo → Bytes) where
  abbrev pub respond : Bytes → Client → Option Bytes → Option Served
  respond req c none = none
  respond req c (some user) = some (record {
    written = handler req (record { pid = pid_or c.pid; user = user });
    handled = true;
  })

  -- none where the process is ended.
  unfoldable pub serve : Request → Client → Option Served
  serve (request req) c = respond req c (client_user c.reverts c.token)
  serve more_data c =
      some (record { written = codes "{\"error\":\"request too large\"}"; handled = false })
  serve broken c = some (record { written = []; handled = false })

-- The error of Server::start, none where the acceptor starts: the outcomes of parsing the SDDL and of
-- the first instance.
abbrev pub first_instance : Option ℕ → Option Bytes
first_instance none = none
first_instance (some e) =
    if e == 5
    then some (
        codes
          "pipe name already in use by another process (possible squatter); refusing to share it")
    else some (win_error (codes "CreateNamedPipe") e)

unfoldable pub start : Option ℕ → Option ℕ → Option Bytes
start (some e) first = some (win_error (codes "parsing the pipe SDDL") e)
start none first = first_instance first
