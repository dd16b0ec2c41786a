-- ===== src/Cve/Names.antt =====
-- The text helpers of src/cve.cpp, and normalize_name.
use nano_sensor.Base.{
  ℕ, ◌+◌, ◌-◌, Bool, true, false, not, ◌&&◌, ◌||◌, List, [], ◌∷◌, ◌++◌, ltb, leb, ◌==◌,
  if◌then◌else◌, map,
}
use nano_sensor.Text.{Bytes, codes, bytes_eq, is_digit, to_lower, drop_while}

abbrev pub is_empty : Bytes → Bool
is_empty [] = true
is_empty (c ∷ cs) = false

-- The parts that std::getline finds, the last one only if it is not empty. `cur` is what the part
-- holds so far.
abbrev pub split_from : ℕ → Bytes → Bytes → List Bytes
split_from delimiter cur [] = if is_empty cur then [] else cur ∷ []
split_from delimiter cur (c ∷ cs) =
    let closed = split_from delimiter [] cs in
    let longer = split_from delimiter (cur ++ (c ∷ [])) cs in
    if c == delimiter then cur ∷ closed else longer

unfoldable pub split_tabs : Bytes → List Bytes
split_tabs line = split_from 9 [] line

-- One of " \t\r\n".
abbrev pub is_blank : ℕ → Bool
is_blank c = (c == b' ') || ((c == 9) || ((c == 13) || (c == 10)))

abbrev pub strip_end : Bytes → Bytes
strip_end [] = []
strip_end (c ∷ cs) = let rest = strip_end cs in if is_blank c && is_empty rest then [] else c ∷ rest

unfoldable pub trim : Bytes → Bytes
trim s = strip_end (drop_while is_blank s)

-- The loop of token_is_version, from what it has seen of digits.
abbrev pub version_loop : Bool → Bytes → Bool
version_loop digit [] = digit
version_loop digit (c ∷ cs) =
    let after_digit = version_loop true cs in
    let after_mark = version_loop digit cs in
    if is_digit c then after_digit else if (c == b'.') || (c == b',') then after_mark else false

unfoldable pub token_is_version : Bytes → Bool
token_is_version [] = version_loop false []
token_is_version (c ∷ []) = version_loop false (c ∷ [])
token_is_version (c ∷ d ∷ cs) =
    if c == b'v' then version_loop false (d ∷ cs) else version_loop false (c ∷ d ∷ cs)

abbrev pub member : Bytes → List Bytes → Bool
member t [] = false
member t (w ∷ ws) = bytes_eq t w || member t ws

abbrev pub noise_words : List Bytes
noise_words =
    codes "x64"
    ∷ codes "x86"
    ∷ codes "amd64"
    ∷ codes "arm64"
    ∷ codes "win32"
    ∷ codes "win64"
    ∷ codes "64-bit"
    ∷ codes "32-bit"
    ∷ codes "(64-bit)"
    ∷ codes "(32-bit)"
    ∷ codes "en-us"
    ∷ codes "en_us"
    ∷ codes "bit"
    ∷ codes "edition"
    ∷ codes "-"
    ∷ []

unfoldable pub token_is_noise : Bytes → Bool
token_is_noise t = member t noise_words

-- A CVSS score is in tenths of a point.
unfoldable pub severity_bucket : Bytes → ℕ → Bytes
severity_bucket sev score =
    if not (is_empty sev)
    then map to_lower sev
    else if leb 90 score
    then codes "critical"
    else if leb 70 score
    then codes "high"
    else if leb 40 score
    then codes "medium"
    else if ltb 0 score
    then codes "low"
    else codes "none"

-- The text outside brackets, in lower case, from a depth of longer brackets.
abbrev pub outside : ℕ → Bytes → Bytes
outside depth [] = []
outside depth (c ∷ cs) =
    let deeper = outside (depth + 1) cs in
    let less = outside (depth - 1) cs in
    let same = outside depth cs in
    if (c == b'(') || (c == b'[')
    then deeper
    else if (c == b')') || (c == b']')
    then less
    else if ltb 0 depth
    then same
    else to_lower c ∷ same

-- White space of the C locale.
abbrev pub is_space : ℕ → Bool
is_space c = (c == b' ') || (ltb 8 c && ltb c 14)

-- The words that `ss >> tok` finds; `cur` is what the word holds so far.
abbrev pub words_from : Bytes → Bytes → List Bytes
words_from cur [] = if is_empty cur then [] else cur ∷ []
words_from cur (c ∷ cs) =
    let behind = words_from [] cs in
    let longer = words_from (cur ++ (c ∷ [])) cs in
    if is_space c then (if is_empty cur then behind else cur ∷ behind) else longer

abbrev pub keep_words : List Bytes → List Bytes
keep_words [] = []
keep_words (t ∷ ts) =
    let rest = keep_words ts in if token_is_version t || token_is_noise t then rest else t ∷ rest

abbrev pub join_words : List Bytes → Bytes
join_words [] = []
join_words (t ∷ []) = t
join_words (t ∷ u ∷ us) = t ++ (b' ' ∷ join_words (u ∷ us))

unfoldable pub normalize_name : Bytes → Bytes
normalize_name raw = trim (join_words (keep_words (words_from [] (outside 0 raw))))
