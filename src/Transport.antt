-- ===== src/Transport.antt =====
-- src/transport.cpp: the URL of the server, and the delay before a retry.
use nano_sensor.Base.{
  ℕ, zero, suc, ◌+◌, ◌-◌, ◌*◌, ◌%◌, ◌^◌, Bool, true, false, not, ◌&&◌, ◌||◌, Option, none, some,
  List, [], ◌∷◌, ◌++◌, ltb, leb, ◌==◌, if◌then◌else◌, length, take, drop,
}
use nano_sensor.Base.Int.{ℤ, pos, negsuc}
use nano_sensor.Text.{Bytes, codes, bytes_eq, find, rfind, find_text, all, is_digit}
pub mod Reply
pub mod Openssl
pub mod Pinning
pub mod Winhttp
pub mod Absent
pub mod Guarding
mod Url
mod Backoff
mod Tests

pub record ParsedUrl : Type 0 where
  pub scheme : Bytes
  pub host : Bytes
  pub port : ℕ
  pub path : Bytes

pub data UrlError : Type 0 where
  no_scheme only_https no_host : UrlError

-- std::atoi on digits. A value above the largest int, which the C standard leaves undefined, is
-- not reduced.
unfoldable pub atoi : ℕ → Bytes → ℕ
atoi acc [] = acc
atoi acc (d ∷ ds) = atoi (acc * 10 + (d - b'0')) ds

-- What stands behind the scheme: the authority, and the path.
abbrev pub split_path : Option ℕ → Bytes → Bytes × Bytes
split_path none rest = (rest, codes "/")
split_path (some slash) rest = (take slash rest, drop slash rest)

abbrev pub is_empty : Bytes → Bool
is_empty [] = true
is_empty (c ∷ cs) = false

-- The host and the port of an authority.
abbrev pub split_port : Option ℕ → Bytes → Bytes × ℕ
split_port none authority = (authority, 443)
split_port (some colon) authority =
    let digits = drop (colon + 1) authority in
    if all is_digit digits && ltb (colon + 1) (length authority)
    then (take colon authority, atoi 0 digits)
    else (authority, 443)

-- Behind the check of the scheme. `out` is written before the host is checked.
abbrev pub parse_rest : Bytes → Bytes → Option UrlError × ParsedUrl
parse_rest scheme rest =
    let (authority, path) = split_path (find b'/' rest) rest in
    let (host, port) = split_port (rfind b':' authority) authority in
    let out : ParsedUrl = record { scheme = scheme; host = host; port = port; path = path } in
    if is_empty host then (some no_host, out) else (none, out)

abbrev pub parse_from : Option ℕ → Bytes → ParsedUrl → Option UrlError × ParsedUrl
parse_from none url out = (some no_scheme, out)
parse_from (some scheme_end) url out =
    let scheme = take scheme_end url in
    if not (bytes_eq scheme (codes "https"))
    then (some only_https, record out { scheme = scheme })
    else parse_rest scheme (drop (scheme_end + 3) url)

-- The error, if any, and the out argument after the call.
unfoldable pub parse_url : Bytes → ParsedUrl → Option UrlError × ParsedUrl
parse_url url out = parse_from (find_text (codes "://") url) url out

abbrev pub clamp : ℤ → ℕ
clamp (negsuc n) = 0
clamp (pos n) = if ltb n 20 then n else 20

-- base_ms << exponent on int64_t, as its 64 bits: the sign bit is 2 ^ 63.
abbrev pub shifted : ℕ → ℕ → ℕ
shifted base_ms exponent = base_ms * 2 ^ exponent % 2 ^ 64

-- The largest delay of an attempt, for a base and a cap that are not negative.
unfoldable pub backoff_ceiling : ℤ → ℕ → ℕ → ℕ
backoff_ceiling attempt base_ms cap_ms =
    let ceiling = shifted base_ms (clamp attempt) in
    if ltb cap_ms ceiling || ((ceiling == 0) || leb (2 ^ 63) ceiling) then cap_ms else ceiling

-- dist(rng): the draw of the distribution on 0 to ceiling is an argument.
unfoldable pub backoff_delay_ms : (ℕ → ℕ) → ℤ → ℕ → ℕ → ℕ
backoff_delay_ms dist attempt base_ms cap_ms = dist (backoff_ceiling attempt base_ms cap_ms)
