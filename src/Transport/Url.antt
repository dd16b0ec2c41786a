-- ===== src/Transport/Url.antt =====
-- parse_url of src/transport.cpp on a URL of known parts.
use nano_sensor.Base.{
  ℕ, suc, ◌+◌, ◌<◌, ◌≡◌, refl, true, false, Option, none, some, [], ◌∷◌, ◌++◌, arith, Bool-cases,
  inl, inr, length, take, drop, take_front, drop_front, length-append,
}
use mathlib.Core.List.{append-nil}
use nano_sensor.Text.{
  find_first, rfind_last, drop-suc, Bytes, codes, bytes_eq, bytes_eq→eq, find, rfind, find_text,
  all, is_digit,
}
use nano_sensor.Transport.{
  ParsedUrl, is_empty, parse_url, parse_rest, parse_from, atoi, split_path, split_port,
}

-- A port of digits, one at least.
abbrev pub IsPort : Bytes → Type 0
IsPort p = (all is_digit p ≡ true) × (0 < length p)

-- Empty, or a path that begins with a slash.
abbrev pub IsPath : Bytes → Type 0
IsPath [] = Unit
IsPath (c ∷ cs) = c ≡ b'/'

abbrev pub path_or_root : Bytes → Bytes
path_or_root [] = codes "/"
path_or_root (c ∷ cs) = c ∷ cs

find-append : (c : ℕ) (u v : Bytes) → find c u ≡ none → find c v ≡ none → find c (u ++ v) ≡ none
unfolding find
find-append c [] v hu hv = hv
find-append c (x ∷ u) v hu hv = ground (arith, find-append c u v)

no_byte : (c : ℕ) (p : Bytes) → is_digit c ≡ false → all is_digit p ≡ true → find c p ≡ none
unfolding find
no_byte c [] n h = refl
no_byte c (d ∷ p) n h = ground (arith, no_byte c p n)

rfind-none : (c : ℕ) (p : Bytes) → find c p ≡ none → rfind c p ≡ none
unfolding find rfind
rfind-none c [] h = refl
rfind-none c (d ∷ p) h = ground (arith, rfind-none c p)

split_path_lem :
    (authority path : Bytes)
    → find b'/' authority ≡ none
    → IsPath path
    → split_path (find b'/' (authority ++ path)) (authority ++ path)
      ≡ (authority, path_or_root path)
split_path_lem a [] h hp = rw (append-nil, h) refl
split_path_lem a (c ∷ cs) h hp =
    rw (hp, find_first b'/' a cs h) (rw (take_front a (b'/' ∷ cs), drop_front a (b'/' ∷ cs)) refl)

add_one : (n : ℕ) → n + 1 ≡ suc n
add_one n = omega arith

no_slash_port : (port : Bytes) → all is_digit port ≡ true → find b'/' (b':' ∷ port) ≡ none
unfolding find
no_slash_port port h = ground (arith, no_byte b'/' port)

split_port_lem :
    (host port : Bytes)
    → IsPort port
    → split_port (rfind b':' (host ++ (b':' ∷ port))) (host ++ (b':' ∷ port)) ≡ (host, atoi 0 port)
split_port_lem host port (digits, some_digit) =
    rw (rfind_last b':' host port (rfind-none b':' port (no_byte b':' port refl digits))) (
      rw (add_one (length host), drop-suc host b':' port, digits, take_front host (b':' ∷ port))
        (ground (arith, length-append host (b':' ∷ port))))

-- From https, a host that is not empty and has no slash, and may hold colons itself, a colon, a port of digits and a
-- path that is empty or begins with a slash, parse_url takes these parts, with / for an empty path,
-- whatever the out argument held.
pub parse_url-parts :
    (host port path : Bytes) (out : ParsedUrl)
    → find b'/' host ≡ none
    → is_empty host ≡ false
    → IsPort port
    → IsPath path
    → parse_url (codes "https://" ++ ((host ++ (b':' ∷ port)) ++ path)) out ≡ (
      none,
      record { scheme = codes "https"; host = host; port = atoi 0 port; path = path_or_root path },
    )
unfolding parse_url find_text
parse_url-parts host port path out no_slash some_host p is_path =
    rw
      (split_path_lem (host ++ (b':' ∷ port)) path
        (find-append b'/' host (b':' ∷ port) no_slash (no_slash_port port p.0)) is_path)
      (rw (split_port_lem host port p) (rw some_host))

accepted_rest :
    (scheme rest : Bytes) (u : ParsedUrl)
    → bytes_eq scheme (codes "https") ≡ true
    → parse_rest scheme rest ≡ (none, u)
    → (u.scheme ≡ codes "https") × (is_empty u.host ≡ false)
accepted_rest scheme rest u s h =
    let same : scheme ≡ codes "https" = bytes_eq→eq scheme (codes "https") s in ground arith

accepted_from :
    (at : Option ℕ) (url : Bytes) (out u : ParsedUrl)
    → parse_from at url out ≡ (none, u)
    → (u.scheme ≡ codes "https") × (is_empty u.host ≡ false)
accepted_from none url out u h = ground arith
accepted_from (some i) url out u h = elim (Bool-cases (bytes_eq (take i url) (codes "https"))) [
  | inl https ↦ accepted_rest (take i url) (drop (i + 3) url) u https (rw https at h)
  | inr other ↦ absurd (ground (arith, rw other at h))
]

-- A URL that parse_url accepts has the scheme https and a host that is not empty.
pub parse_url-accepts :
    (url : Bytes) (out u : ParsedUrl)
    → parse_url url out ≡ (none, u)
    → (u.scheme ≡ codes "https") × (is_empty u.host ≡ false)
unfolding parse_url
parse_url-accepts url out u h = accepted_from (find_text (codes "://") url) url out u h
