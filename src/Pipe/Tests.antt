-- ===== src/Pipe/Tests.antt =====
-- Runs of the pipe.
use nano_sensor.Base.{arith, ◌+◌, ◌≤◌, ◌≡◌, refl, true, false, none, some, [], ◌∷◌}
use nano_sensor.Text.{Bytes, codes}
use nano_sensor.Pipe.Server.{
  account, token, Client, ClientInfo, request, more_data, client_user, serve,
}
use nano_sensor.Pipe.Accepting.{
  Pipe, started, connected, created, handed_off, Reach, here, next, create, hand_off, accept_round,
}
use nano_sensor.Pipe.Instances.{instances_bounds}
use nano_sensor.Pipe.Calling.{not_opened, last, failed, call, open_pipe}

abbrev admin : Client
admin = record {
  request = request (codes "ping");
  pid = some 7;
  reverts = true;
  token = token (account (codes "CORP") (codes "ann"));
}

abbrev echo_user : Bytes → ClientInfo → Bytes
echo_user req who = who.user

user_is_named :
    serve echo_user admin.request admin
    ≡ some (record { written = codes "CORP\\ann"; handled = true })
unfolding serve client_user
user_is_named = refl

long_request_is_refused :
    serve echo_user more_data admin
    ≡ some (record { written = codes "{\"error\":\"request too large\"}"; handled = false })
unfolding serve
long_request_is_refused = refl

-- A failure to stop impersonating ends the process.
no_revert_ends : serve echo_user admin.request (record admin { reverts = false }) ≡ none
unfolding serve client_user
no_revert_ends = refl

missing_service :
    call (codes "p") 5000 (not_opened 2) none (last [])
    ≡ failed (codes "no server on p (is the service running?)") 2
unfolding call open_pipe
missing_service = refl

abbrev one_served : Pipe
one_served = record { instances = 2; served = 1; held = 1; round = []; stopping = false }

one_client : Reach (started true) one_served
unfolding accept_round
one_client =
    next
      (next (next here (connected _ (create ∷ hand_off ∷ []) refl refl))
        (created _ (hand_off ∷ []) refl (omega arith)))
      (handed_off _ [] refl)

instances_bounds_example :
    (1 ≤ one_served.held)
    × (one_served.served + one_served.held ≡ one_served.instances)
    × (one_served.instances ≤ 8)
    × (one_served.served ≤ 7)
instances_bounds_example = instances_bounds true one_client refl
