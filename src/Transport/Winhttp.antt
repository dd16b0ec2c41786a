-- ===== src/Transport/Winhttp.antt =====
-- src/transport_winhttp.cpp: the client on Windows. What the calls of WinHTTP, CryptoAPI and BCrypt
-- return is an argument; hex_lower and normalise_pin read as in src/transport_openssl.cpp.
use nano_sensor.Base.{
  ℕ, Bool, true, false, not, ◌||◌, Option, none, some, List, [], ◌∷◌, ◌++◌, ◌==◌, if◌then◌else◌,
  length,
}
use nano_sensor.Base.Int.{pos}
use nano_sensor.Text.{Bytes, codes, bytes_eq}
use nano_sensor.Json.{print_i64}
use nano_sensor.Transport.{UrlError, parse_url, is_empty}
use nano_sensor.Transport.Reply.{Result}
use nano_sensor.Transport.Openssl.{
  hex_lower, normalise_pin, refuse, is_success, is_transient, TransportError, bad_url, bad_pin,
  library,
}

-- The outcome of a call: none, or the number of the error.
abbrev pub Outcome : Type 0
Outcome = Option ℕ

-- A certificate of a PKCS#12 bundle: the two properties that show a private key, and its encoding.
pub record Certificate : Type 0 where
  pub prov_info : Bool
  pub key_context : Bool
  pub encoded : Bytes

-- The first certificate with a private key.
unfoldable pub with_key : List Certificate → Option Certificate
with_key [] = none
with_key (c ∷ rest) =
    let later = with_key rest in if c.prov_info || c.key_context then some c else later

-- PFXImportCertStore for one choice of flags: an error, or the certificates of the store.
pub data Import : Type 0 where
  import_failed : ℕ → Import
  imported : List Certificate → Import

unfoldable pub import_loop : ℕ → List Import → Import
import_loop last [] = import_failed last
import_loop last (imported certificates ∷ rest) = imported certificates
import_loop last (import_failed e ∷ rest) = import_loop e rest

abbrev pub key_of : Bytes → Option Certificate → Option Bytes × Option Certificate
key_of path (some c) = (none, some c)
key_of path none =
    (some (codes "no certificate with an associated private key inside " ++ path), none)

abbrev pub certificate_of : Bytes → Import → Option Bytes × Option Certificate
certificate_of path (import_failed e) = (
  some
      (codes "PFXImportCertStore failed for " ++ (path ++ (codes ", error " ++ print_i64 (pos e)))),
  none,
)
certificate_of path (imported certificates) = key_of path (with_key certificates)

-- The error, or the certificate; the file is open or not, and is imported with three choices of flags.
unfoldable pub load_client_pfx :
    Bytes → Bool → Import → Import → Import → Option Bytes × Option Certificate
load_client_pfx path false a b c = (some (codes "cannot open client certificate: " ++ path), none)
load_client_pfx path true a b c = certificate_of path (import_loop 0 (a ∷ b ∷ c ∷ []))

-- BCrypt on the certificate of the server, or the error of reading it.
pub data ServerCertificate : Type 0 where
  unread : ℕ → ServerCertificate
  no_provider unhashed : ServerCertificate
  digest : Bytes → ServerCertificate

-- What one POST meets. A chunk is what WinHttpQueryDataAvailable announces and WinHttpReadData gives.
pub record Peer : Type 0 where
  pub session : Outcome
  pub connect : Outcome
  pub open_request : Outcome
  pub attach : Outcome
  pub send : Outcome
  pub certificate : ServerCertificate
  pub write : Outcome
  pub receive : Outcome
  pub status : ℕ
  pub chunks : List (ℕ × Bytes)

abbrev pub failure : Bytes → ℕ → Bytes
failure what e = what ++ (codes " failed, error " ++ print_i64 (pos e))

-- The message where the pin does not match.
unfoldable pub verify_pin : Bytes → ServerCertificate → Option Bytes
verify_pin pin (unread e) =
    some (codes "could not read the server certificate, error " ++ print_i64 (pos e))
verify_pin pin no_provider = some (codes "BCryptOpenAlgorithmProvider(SHA256) failed")
verify_pin pin unhashed = some (codes "BCryptHash failed")
verify_pin pin (digest bytes) =
    let actual = hex_lower bytes in
    if bytes_eq actual pin
    then none
    else some
        (codes "server certificate pin mismatch: expected " ++ (pin ++ (codes ", got " ++ actual)))

-- The loop ends with a chunk of no size, or one of which nothing is read.
unfoldable pub read_chunks : List (ℕ × Bytes) → Bytes
read_chunks [] = []
read_chunks ((available, chunk) ∷ rest) =
    let later = read_chunks rest in
    if (available == 0) || is_empty chunk then [] else chunk ++ later

unfoldable pub read_reply : ℕ → List (ℕ × Bytes) → Result
read_reply status chunks =
    if is_success (pos status)
    then record {
      ok = true;
      http_status = pos status;
      body = read_chunks chunks;
      error = [];
      retryable = false;
    }
    else record {
      ok = false;
      http_status = pos status;
      body = read_chunks chunks;
      error = codes "cloud returned HTTP " ++ print_i64 (pos status);
      retryable = is_transient (pos status);
    }

-- The result, and the bytes of the body that were written.
abbrev pub received : Peer → Bytes → Outcome → Result × Bytes
received peer body (some e) = (refuse true (failure (codes "WinHttpReceiveResponse") e), body)
received peer body none = (read_reply peer.status peer.chunks, body)

abbrev pub write_body : Peer → Bytes → Outcome → Result × Bytes
write_body peer [] write = received peer [] peer.receive
write_body peer (b ∷ bs) (some e) = (refuse true (failure (codes "WinHttpWriteData") e), [])
write_body peer (b ∷ bs) none = received peer (b ∷ bs) peer.receive

abbrev pub checked : Peer → Bytes → Option Bytes → Result × Bytes
checked peer body (some error) = (refuse false error, [])
checked peer body none = write_body peer body peer.write

abbrev pub sent : Bytes → Peer → Bytes → Outcome → Result × Bytes
sent pin peer body (some e) = (refuse true (failure (codes "WinHttpSendRequest") e), [])
sent pin peer body none = checked peer body (verify_pin pin peer.certificate)

abbrev pub attached : Bytes → Peer → Bytes → Outcome → Result × Bytes
attached pin peer body (some e) = (
  refuse false (codes "could not attach the client certificate, error " ++ print_i64 (pos e)),
  [],
)
attached pin peer body none = sent pin peer body peer.send

abbrev pub requested : Bytes → Option Certificate → Peer → Bytes → Outcome → Result × Bytes
requested pin client peer body (some e) = (refuse true (failure (codes "WinHttpOpenRequest") e), [])
requested pin (some c) peer body none = attached pin peer body peer.attach
requested pin none peer body none = sent pin peer body peer.send

abbrev pub connected : Bytes → Option Certificate → Peer → Bytes → Outcome → Result × Bytes
connected pin client peer body (some e) = (refuse true (failure (codes "WinHttpConnect") e), [])
connected pin client peer body none = requested pin client peer body peer.open_request

abbrev pub opened : Bytes → Option Certificate → Peer → Bytes → Outcome → Result × Bytes
opened pin client peer body (some e) = (refuse true (failure (codes "WinHttpOpen") e), [])
opened pin client peer body none = connected pin client peer body peer.connect

unfoldable pub post : Bytes → Option Certificate → Peer → Bytes → Result × Bytes
post pin client peer body = opened pin client peer body peer.session

-- The error, or the pin and the client certificate. `load` is load_client_pfx on the path.
unfoldable pub init :
    Bytes
    → Bytes
    → (Bytes → Option Bytes × Option Certificate)
    → Option TransportError × Bytes × Option Certificate
init server_pin path load =
    let pin = normalise_pin server_pin in
    if not (length pin == 64)
    then (some (bad_pin (length pin)), pin, none)
    else if is_empty path
    then (none, pin, none)
    else elim (load path).0 [
      | some error ↦ (some (library error), pin, none)
      | none ↦ (none, pin, (load path).1)
    ]

abbrev pub init_url :
    Option UrlError
    → Option TransportError × Bytes × Option Certificate
    → Option TransportError × Bytes × Option Certificate
init_url (some error) t = (some (bad_url error), [], none)
init_url none t = t

unfoldable pub make_transport :
    Bytes
    → Bytes
    → Bytes
    → (Bytes → Option Bytes × Option Certificate)
    → Option TransportError × Bytes × Option Certificate
make_transport url server_pin path load =
    let (e, parsed) =
      parse_url url (record { scheme = []; host = []; port = 443; path = codes "/" }) in
    init_url e (init server_pin path load)
