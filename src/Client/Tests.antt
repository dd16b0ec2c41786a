-- ===== src/Client/Tests.antt =====
-- Runs of the client.
use nano_sensor.Base.{ℕ, ◌≡◌, refl, Option, some, [], ◌∷◌, if◌then◌else◌}
use nano_sensor.Text.{Bytes, codes, bytes_eq, find}
use nano_sensor.Client.{
  strtoul, default_call, argument_of, parse_call, wait_of, with_wait, run_client,
}

words_are_joined :
    parse_call
      (codes "scan" ∷ codes "--timeout" ∷ codes "700" ∷ codes "9000" ∷ codes "--pipe" ∷ [])
      default_call
    ≡ some (record default_call { timeout_ms = 700; request = codes "scan 9000 --pipe" })
unfolding parse_call argument_of strtoul
words_are_joined = refl

wait_is_added : (with_wait (record default_call { request = codes "scan 9000" })).timeout_ms ≡ 14000
unfolding with_wait wait_of strtoul find
wait_is_added = refl

-- A pipe that answers ping, and no other request.
abbrev pong : Bytes → Bytes → ℕ → Option Bytes
pong pipe request timeout = some (
    if bytes_eq request (codes "ping")
    then codes "{\"pong\":true}"
    else codes "{\"error\":\"unknown\"}")

ping_exits_with_0 :
    run_client pong (codes "ping" ∷ []) ≡ record { code = 0; stdout = codes "{\"pong\":true}\n" }
unfolding run_client parse_call argument_of with_wait
ping_exits_with_0 = refl

error_exits_with_1 : (run_client pong (codes "x" ∷ [])).code ≡ 1
unfolding run_client parse_call argument_of with_wait
error_exits_with_1 = refl
