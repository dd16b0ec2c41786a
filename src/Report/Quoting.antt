-- ===== src/Report/Quoting.antt =====
-- quote_arg of src/main.cpp, and a reader of command lines.
use nano_sensor.Base.{
  ℕ, zero, suc, ◌/◌, ◌%◌, ◌≡◌, refl, ap, inl, inr, Bool, true, false, Bool-cases, not, ◌&&◌, ◌||◌,
  [], ◌∷◌, ◌++◌, ◌==◌, ltb, if◌then◌else◌, arith, replicate,
}
use mathlib.Core.List.{append_assoc, append-nil}
use nano_sensor.Text.{Bytes}
use nano_sensor.Cve.Names.{is_empty}
use nano_sensor.Report.Records.{any, wants_quotes, escape_quotes, quote_arg}

-- The rules for the arguments of a Windows program: an argument ends at a blank outside quotes; a
-- quote behind an even number 2 * n of backslashes stands for n of them and opens or closes a
-- quotation, behind an odd number it stands for itself; other backslashes stand for themselves.
-- `n` backslashes have just been passed, and `cur` is the argument so far.
unfoldable pub read_argument : Bool → ℕ → Bytes → Bytes → Bytes × Bytes
read_argument quoted n cur [] = (cur ++ replicate n 92, [])
read_argument quoted n cur (c ∷ cs) =
    let backslash = read_argument quoted (suc n) cur cs in
    let literal_quote = read_argument quoted 0 (cur ++ (replicate (n / 2) 92 ++ (34 ∷ []))) cs in
    let toggled = read_argument (not quoted) 0 (cur ++ replicate (n / 2) 92) cs in
    let other = read_argument quoted 0 (cur ++ (replicate n 92 ++ (c ∷ []))) cs in
    if c == 92
    then backslash
    else if c == 34
    then if n % 2 == 1 then literal_quote else toggled
    else if not quoted && ((c == 32) || (c == 9))
    then (cur ++ replicate n 92, cs)
    else other

-- No quote stands behind a backslash, and the last byte is no backslash; `after` says whether a
-- backslash was just passed.
abbrev pub safe : Bool → Bytes → Bool
safe after [] = not after
safe after (c ∷ cs) =
    let quote = safe false cs in
    let other = safe (c == 92) cs in if c == 34 then not after && quote else other

one_more : (n : ℕ) (s : Bytes) → replicate (suc n) 92 ++ s ≡ replicate n 92 ++ (92 ∷ s)
one_more zero s = refl
one_more (suc n) s = ap (λ l. 92 ∷ l) (one_more n s)

next_byte :
    (cur u : Bytes) (c : ℕ) (s : Bytes) → (cur ++ (u ++ (c ∷ []))) ++ s ≡ cur ++ (u ++ (c ∷ s))
next_byte cur u c s = rw (append_assoc, append_assoc) refl

read_plain :
    (s : Bytes) (n : ℕ) (cur rest : Bytes)
    → any wants_quotes s ≡ false
    → read_argument false n cur (s ++ (32 ∷ rest)) ≡ (cur ++ (replicate n 92 ++ s), rest)
unfolding read_argument
read_plain [] n cur rest h = rw append-nil refl
read_plain (c ∷ s) n cur rest h = ground (
  arith,
  one_more n s,
  next_byte cur (replicate n 92) c s,
  read_plain s (suc n) cur rest,
  read_plain s 0 (cur ++ (replicate n 92 ++ (c ∷ []))) rest,
)

read_quoted :
    (s : Bytes) (n : ℕ) (cur rest : Bytes)
    → safe (ltb 0 n) s ≡ true
    → read_argument true n cur (escape_quotes s ++ (34 ∷ 32 ∷ rest))
      ≡ (cur ++ (replicate n 92 ++ s), rest)
unfolding read_argument
read_quoted [] zero cur rest h = rw (append-nil, append-nil) refl
read_quoted [] (suc n) cur rest h = absurd (ground arith)
read_quoted (c ∷ s) n cur rest h = ground (
  arith,
  one_more n s,
  next_byte cur (replicate n 92) c s,
  next_byte cur [] c s,
  read_quoted s (suc n) cur rest,
  read_quoted s 0 (cur ++ (replicate n 92 ++ (c ∷ []))) rest,
  read_quoted s 0 (cur ++ (34 ∷ [])) rest,
)

opened :
    (s rest : Bytes)
    → safe false s ≡ true
    → read_argument false 0 [] (34 ∷ (escape_quotes s ++ (34 ∷ 32 ∷ rest))) ≡ (s, rest)
unfolding read_argument
opened s rest h = read_quoted s 0 [] rest h

-- A string in which no quote stands behind a backslash and whose last byte is no backslash is read
-- back from quote_arg, by the rules of Windows, as it was, where a blank follows it: an empty string, blanks and
-- quotes included.
pub read_argument-quote_arg :
    (s rest : Bytes)
    → safe false s ≡ true
    → read_argument false 0 [] (quote_arg s ++ (32 ∷ rest)) ≡ (s, rest)
unfolding quote_arg read_argument
read_argument-quote_arg s rest h =
    elim (Bool-cases (not (is_empty s) && not (any wants_quotes s))) [
      | inl plain ↦ rw plain (read_plain s 0 [] rest (ground arith))
      | inr quoted ↦ rw (quoted, append_assoc) (opened s rest h)
    ]
