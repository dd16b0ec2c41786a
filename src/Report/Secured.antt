-- ===== src/Report/Secured.antt =====
-- Reporter::drain of src/main.cpp over the transports of src/transport_openssl.cpp and
-- src/transport_winhttp.cpp.
use nano_sensor.Base.{ℕ, Option}
use nano_sensor.Text.{Bytes, codes}
use nano_sensor.Spool.Queue.{Spool}
use nano_sensor.Transport.{ParsedUrl}
use nano_sensor.Transport.Openssl.{Peer, post}
use nano_sensor.Transport.Winhttp
use nano_sensor.Transport.Guarding
use nano_sensor.Report.Drain.{Surroundings}
use nano_sensor.Report.Drained.{Drained}

-- transport->post of the loop: one connection for each round.
abbrev pub secured : ParsedUrl → Bytes → (ℕ → Peer) → Surroundings → Surroundings
secured url pin peers w = record w {
  post = λ n body. (post url pin (peers n) body (codes "application/json")).0;
}

abbrev pub secured_windows :
    Bytes → Option Winhttp.Certificate → (ℕ → Winhttp.Peer) → Surroundings → Surroundings
secured_windows pin client peers w = record w {
  post = λ n body. (Winhttp.post pin client (peers n) body).0;
}
