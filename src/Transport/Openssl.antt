-- ===== src/Transport/Openssl.antt =====
-- src/transport_openssl.cpp: the client on Linux. What the calls of OpenSSL and of the sockets return is
-- an argument.
use nano_sensor.Base.{
  ℕ, zero, suc, ◌+◌, ◌/◌, ◌^◌, Bool, true, false, not, ◌&&◌, ◌||◌, Option, none, some, [], ◌∷◌,
  ◌++◌, ltb, leb, ◌==◌, if◌then◌else◌, length, take, drop,
}
use Prim.Native.Nat.{bit_and}
use nano_sensor.Base.Int.{ℤ, pos, negsuc}
use nano_sensor.Text.{Bytes, codes, bytes_eq, starts_with, find, find_text, to_lower}
use nano_sensor.Json.{hex_digit, print_i64}
use nano_sensor.Numbers.{atoi}
use nano_sensor.Transport.{ParsedUrl, UrlError, parse_url}
use nano_sensor.Transport.Reply.{Result}

unfoldable pub hex_lower : Bytes → Bytes
hex_lower [] = []
hex_lower (b ∷ bs) = hex_digit (bit_and (b / 2 ^ 4) 0xF) ∷ hex_digit (bit_and b 0xF) ∷ hex_lower bs

unfoldable pub normalise_pin : Bytes → Bytes
normalise_pin [] = []
normalise_pin (c ∷ cs) =
    let rest = normalise_pin cs in if (c == b':') || (c == b' ') then rest else to_lower c ∷ rest

-- X509_digest on the certificate of the peer.
pub data Certificate : Type 0 where
  missing unhashed : Certificate
  digest : Bytes → Certificate

-- What one connection meets: the errors of dial, SSL_new and SSL_connect, none where they succeed;
-- the certificate; what write number k returns when so many bytes are left; and what is read.
pub record Peer : Type 0 where
  pub dial : Option Bytes
  pub ssl_new : Option Bytes
  pub handshake : Option Bytes
  pub certificate : Certificate
  pub write : ℕ → ℕ → ℤ
  pub write_error : Bytes
  pub response : Bytes

-- The message where the pin does not match.
unfoldable pub verify_pin : Bytes → Certificate → Option Bytes
verify_pin pin missing = some (codes "server presented no certificate")
verify_pin pin unhashed = some (codes "could not hash the server certificate")
verify_pin pin (digest bytes) =
    let actual = hex_lower bytes in
    if bytes_eq actual pin
    then none
    else some
        (codes "server certificate pin mismatch: expected " ++ (pin ++ (codes ", got " ++ actual)))

-- Whether all bytes were written, and those that were. Each round writes a byte, so their number is
-- enough fuel.
unfoldable pub write_loop : (ℕ → ℕ → ℤ) → ℕ → ℕ → Bytes → Bool × Bytes
write_loop write fuel k [] = (true, [])
write_loop write zero k (b ∷ bs) = (false, [])
write_loop write (suc fuel) k (b ∷ bs) = elim (write k (length (b ∷ bs))) [
  | pos zero ↦ (false, [])
  | pos (suc n) ↦
      let (done, sent) = write_loop write fuel (suc k) (drop n bs) in
      (done, (b ∷ take n bs) ++ sent)
  | negsuc n ↦ (false, [])
]

unfoldable pub write_all : Peer → Bytes → Bool × Bytes
write_all peer data_ = write_loop peer.write (length data_) 0 data_

unfoldable pub request_of : ParsedUrl → Bytes → Bytes → Bytes
request_of url body content_type =
    codes "POST "
    ++ url.path
    ++ codes " HTTP/1.1\r\nHost: "
    ++ url.host
    ++ codes ":"
    ++ print_i64 (pos url.port)
    ++ codes "\r\nUser-Agent: nano-sensor/0.1\r\nContent-Type: "
    ++ content_type
    ++ codes "\r\nContent-Length: "
    ++ print_i64 (pos (length body))
    ++ codes "\r\nConnection: close\r\n\r\n"
    ++ body

abbrev pub refuse : Bool → Bytes → Result
refuse retryable error = record {
  ok = false;
  http_status = pos 0;
  body = [];
  error = error;
  retryable = retryable;
}

abbrev pub status_behind : Option ℕ → Bytes → ℤ
status_behind none response = pos 0
status_behind (some sp) response = atoi (drop (sp + 1) response)

abbrev pub body_behind : Option ℕ → Bytes → Bytes
body_behind none response = []
body_behind (some start) response = drop (start + 4) response

-- 200 <= status < 300
abbrev pub is_success : ℤ → Bool
is_success (pos n) = leb 200 n && ltb n 300
is_success (negsuc n) = false

-- status >= 500 || status == 429
abbrev pub is_transient : ℤ → Bool
is_transient (pos n) = leb 500 n || (n == 429)
is_transient (negsuc n) = false

unfoldable pub read_response : Bytes → Result
read_response [] = refuse true (codes "empty response from the cloud endpoint")
read_response (c ∷ cs) =
    let response = c ∷ cs in
    let status =
      if starts_with (codes "HTTP/") response
      then status_behind (find 32 response) response
      else pos 0 in
    let body = body_behind (find_text (codes "\r\n\r\n") response) response in
    if is_success status
    then record { ok = true; http_status = status; body = body; error = []; retryable = false }
    else record {
      ok = false;
      http_status = status;
      body = body;
      error = codes "cloud returned HTTP " ++ print_i64 status;
      retryable = is_transient status;
    }

-- Behind the handshake: the pin first, then the request.
abbrev pub exchange : ParsedUrl → Bytes → Peer → Bytes → Bytes → Result × Bytes
exchange url pin peer body content_type =
    let (done, sent) = write_all peer (request_of url body content_type) in
    let reply = if done then read_response peer.response else refuse true peer.write_error in
    elim (verify_pin pin peer.certificate) [
      | some error ↦ (refuse false error, [])
      | none ↦ (reply, sent)
    ]

-- The result, and the bytes that were written to the peer.
unfoldable pub post : ParsedUrl → Bytes → Peer → Bytes → Bytes → Result × Bytes
post url pin peer body content_type = elim peer.dial [
  | some error ↦ (refuse true error, [])
  | none ↦ elim peer.ssl_new [
    | some error ↦ (refuse true error, [])
    | none ↦ elim peer.handshake [
      | some error ↦ (refuse true error, [])
      | none ↦ exchange url pin peer body content_type
    ]
  ]
]

pub data TransportError : Type 0 where
  bad_url : UrlError → TransportError
  bad_pin : ℕ → TransportError
  library : Bytes → TransportError

-- The first error of the calls that load the certificate and the key, none where they succeed.
unfoldable pub init : Bytes → Option Bytes → Option TransportError × Bytes
init server_pin loads =
    let pin = normalise_pin server_pin in
    if not (length pin == 64)
    then (some (bad_pin (length pin)), pin)
    else elim loads [ some error ↦ (some (library error), pin) | none ↦ (none, pin) ]

abbrev pub init_url :
    Option UrlError → ParsedUrl → Bytes → Option Bytes → Option TransportError × ParsedUrl × Bytes
init_url (some error) url server_pin loads = (some (bad_url error), url, [])
init_url none url server_pin loads = let (e, pin) = init server_pin loads in (e, url, pin)

-- The error, or the URL and the pin of the transport.
unfoldable pub make_transport :
    Bytes → Bytes → Option Bytes → Option TransportError × ParsedUrl × Bytes
make_transport url server_pin loads =
    let (e, parsed) =
      parse_url url (record { scheme = []; host = []; port = 443; path = codes "/" }) in
    init_url e parsed server_pin loads
