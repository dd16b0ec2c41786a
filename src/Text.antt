-- ===== src/Text.antt =====
-- std::string and std::string_view as lists of bytes, with the searches that the sources call.
use nano_sensor.Base.{
  ℕ, suc, ◌+◌, ◌≤◌, ◌≡◌, refl, Bool, true, false, ◌&&◌, ◌||◌, Option, none, some, List, [], ◌∷◌,
  arith, ltb, leb, ◌==◌, if◌then◌else◌, length, drop, ◌++◌,
}
use Prim.Native.Char.{code}
use Prim.Native.String.{String}
use mathlib.Core.Option
pub mod Order

abbrev pub Bytes : Type 0
Bytes = List ℕ

-- The bytes of a literal.
abbrev pub codes : String → Bytes
codes String.[] = []
codes (String.◌∷◌ c s) = code c ∷ codes s

-- operator== on strings.
abbrev pub bytes_eq : Bytes → Bytes → Bool
bytes_eq [] [] = true
bytes_eq [] (y ∷ ys) = false
bytes_eq (x ∷ xs) [] = false
bytes_eq (x ∷ xs) (y ∷ ys) = (x == y) && bytes_eq xs ys

-- operator< on strings: lexicographic on unsigned bytes.
abbrev pub bytes_lt : Bytes → Bytes → Bool
bytes_lt xs [] = false
bytes_lt [] (y ∷ ys) = true
bytes_lt (x ∷ xs) (y ∷ ys) = ltb x y || ((x == y) && bytes_lt xs ys)

-- find(c) and rfind(c): the first and the last index of a byte.
unfoldable pub find : ℕ → Bytes → Option ℕ
find c [] = none
find c (x ∷ xs) = let rest = find c xs in if x == c then some 0 else Option.map suc rest

abbrev pub later : Bool → Option ℕ → Option ℕ
later here (some i) = some (suc i)
later here none = if here then some 0 else none

unfoldable pub rfind : ℕ → Bytes → Option ℕ
rfind c [] = none
rfind c (x ∷ xs) = later (x == c) (rfind c xs)

-- s.rfind(p, 0) == 0: the string begins with p.
abbrev pub starts_with : Bytes → Bytes → Bool
starts_with [] xs = true
starts_with (p ∷ ps) [] = false
starts_with (p ∷ ps) (x ∷ xs) = (p == x) && starts_with ps xs

-- find(t): the first index of a string.
unfoldable pub find_text : Bytes → Bytes → Option ℕ
find_text t [] = if starts_with t [] then some 0 else none
find_text t (x ∷ xs) =
    let rest = find_text t xs in if starts_with t (x ∷ xs) then some 0 else Option.map suc rest

-- The run of bytes at the front that pass a test, and what follows it.
abbrev pub take_while : (ℕ → Bool) → Bytes → Bytes
take_while p [] = []
take_while p (x ∷ xs) = let rest = take_while p xs in if p x then x ∷ rest else []

abbrev pub drop_while : (ℕ → Bool) → Bytes → Bytes
drop_while p [] = []
drop_while p (x ∷ xs) = let rest = drop_while p xs in if p x then rest else x ∷ xs

abbrev pub all : (ℕ → Bool) → Bytes → Bool
all p [] = true
all p (x ∷ xs) = p x && all p xs

-- c >= '0' && c <= '9'
abbrev pub is_digit : ℕ → Bool
is_digit c = leb b'0' c && leb c b'9'

-- std::tolower in the "C" locale.
abbrev pub to_lower : ℕ → ℕ
to_lower c = if leb b'A' c && leb c b'Z' then c + 32 else c

pub bytes_eq→eq : (xs ys : Bytes) → bytes_eq xs ys ≡ true → xs ≡ ys
bytes_eq→eq [] [] h = refl
bytes_eq→eq [] (y ∷ ys) h = ground arith
bytes_eq→eq (x ∷ xs) [] h = ground arith
bytes_eq→eq (x ∷ xs) (y ∷ ys) h = ground (arith, bytes_eq→eq xs ys)

pub bytes_eq_refl : (xs : Bytes) → bytes_eq xs xs ≡ true
bytes_eq_refl [] = refl
bytes_eq_refl (x ∷ xs) = ground (arith, bytes_eq_refl xs)

pub length-drop_while : (p : ℕ → Bool) (xs : Bytes) → length (drop_while p xs) ≤ length xs
length-drop_while p [] = omega arith
length-drop_while p (x ∷ xs) = ground (arith, length-drop_while p xs)

pub find_first :
    (c : ℕ) (u rest : Bytes) → find c u ≡ none → find c (u ++ (c ∷ rest)) ≡ some (length u)
unfolding find
find_first c [] rest h = ground arith
find_first c (x ∷ u) rest h = ground (arith, find_first c u rest)

pub rfind_last :
    (c : ℕ) (u rest : Bytes) → rfind c rest ≡ none → rfind c (u ++ (c ∷ rest)) ≡ some (length u)
unfolding rfind
rfind_last c [] rest h = ground arith
rfind_last c (x ∷ u) rest h = ground (arith, rfind_last c u rest)

pub drop-suc : (u : Bytes) (c : ℕ) (rest : Bytes) → drop (suc (length u)) (u ++ (c ∷ rest)) ≡ rest
drop-suc [] c rest = refl
drop-suc (x ∷ u) c rest = drop-suc u c rest
