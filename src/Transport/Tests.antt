-- ===== src/Transport/Tests.antt =====
-- Runs of the transport helpers, and examples.
use nano_sensor.Base.{ℕ, ◌+◌, ◌≤◌, ◌<◌, ◌*◌, ◌≡◌, refl, true, none, some, [], ◌∷◌, arith}
use nano_sensor.Base.Int.{negsuc, pos}
use nano_sensor.Text.{codes, find, rfind, find_text}
use nano_sensor.Transport.{ParsedUrl, only_https, no_host, parse_url, backoff_ceiling}
use nano_sensor.Transport.Openssl.{
  Peer, digest, hex_lower, verify_pin, write_loop, write_all, request_of, read_response, post,
}
use nano_sensor.Transport.Pinning.{IsGuarded, post-IsGuarded}
use nano_sensor.Json.{digits_of}
use nano_sensor.Numbers as Numbers
use nano_sensor.Transport.Backoff.{capped, backoff_ceiling-doubles}

abbrev blank : ParsedUrl
blank = record { scheme = []; host = []; port = 443; path = codes "/" }

plaintext_is_refused : (parse_url (codes "http://a/") blank).0 ≡ some only_https
unfolding parse_url find_text
plaintext_is_refused = refl

port_alone_has_no_host : (parse_url (codes "https://:8443/") blank).0 ≡ some no_host
unfolding parse_url find_text find rfind
port_alone_has_no_host = refl

abbrev ingest : ParsedUrl
ingest = record {
  scheme = codes "https";
  host = codes "[::1]";
  port = 8443;
  path = codes "/ingest";
}

backoff_ceiling-doubles_example :
    (backoff_ceiling (pos 0) 1000 300000 ≡ capped 300000 1000)
    × ((n : ℕ)
        → n < 20
        → backoff_ceiling (pos (n + 1)) 1000 300000
          ≡ capped 300000 (2 * backoff_ceiling (pos n) 1000 300000))
    × ((n : ℕ)
        → 20 ≤ n
        → backoff_ceiling (pos n) 1000 300000 ≡ backoff_ceiling (pos 20) 1000 300000)
    × ((n : ℕ) → backoff_ceiling (negsuc n) 1000 300000 ≡ backoff_ceiling (pos 0) 1000 300000)
backoff_ceiling-doubles_example = backoff_ceiling-doubles 1000 300000 (omega arith) (omega arith)

third_attempt : backoff_ceiling (pos 3) 1000 300000 ≡ 8000
unfolding backoff_ceiling
third_attempt = refl

-- A peer with the hash 1, 171 that takes the request in one write.
abbrev peer : Peer
peer = record {
  dial = none;
  ssl_new = none;
  handshake = none;
  certificate = digest (1 ∷ 171 ∷ []);
  write = λ k left. pos left;
  write_error = codes "write";
  response = codes "HTTP/1.1 204 No Content\r\n\r\n";
}

reply_is_ok : (post ingest (codes "01ab") peer (codes "{}") (codes "application/json")).0.ok ≡ true
unfolding post verify_pin hex_lower write_all write_loop request_of read_response find find_text
    Numbers.atoi digits_of
reply_is_ok = refl

post-IsGuarded_example :
    IsGuarded
      (codes "01ab")
      (digest (1 ∷ 171 ∷ []))
      (post ingest (codes "01ab") peer (codes "{}") (codes "application/json"))
post-IsGuarded_example =
    post-IsGuarded ingest (codes "01ab") peer (codes "{}") (codes "application/json")
