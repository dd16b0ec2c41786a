-- ===== src/Linux/Stat.antt =====
-- The parent process in /proc/<pid>/stat, as src/platform/platform_linux.cpp reads it.
use nano_sensor.Base.{
  ℕ, ◌+◌, ◌≡◌, refl, sym, ap, ◌∙◌, Bool, true, false, not, ◌&&◌, none, some, [], ◌∷◌, ◌++◌, ◌==◌,
  arith, ltb, lt→ltb, length, drop_beyond, length-append,
}
use mathlib.Core.List.{append_assoc, append-nil}
use nano_sensor.Text.{Bytes, rfind, rfind_last, all}
use nano_sensor.Numbers.{atoi}
use nano_sensor.Spool.StateFile.{is_space}
use nano_sensor.Cve.Names.{is_empty}
use nano_sensor.Linux.Files.{words_from, words}
use nano_sensor.Linux.Processes.{second_word, ppid_of}

abbrev pub is_solid : ℕ → Bool
is_solid c = not (is_space c)

-- A byte that is neither white space nor a closing parenthesis.
abbrev pub is_plain : ℕ → Bool
is_plain c = not (is_space c) && not (c == b')')

-- A word and a blank at the front.
first_word :
    (w cur rest : Bytes)
    → all is_plain w ≡ true
    → is_empty (cur ++ w) ≡ false
    → words_from cur (w ++ (32 ∷ rest)) ≡ (cur ++ w) ∷ words_from [] rest
first_word [] cur rest h some_word =
    let e : is_empty cur ≡ false = ap is_empty (sym (append-nil cur)) ∙ some_word in
    rw (append-nil cur, e) refl
first_word (c ∷ w) cur rest h some_word =
    let plain : is_space c ≡ false = ground arith in
    let longer : (cur ++ (c ∷ [])) ++ w ≡ cur ++ (c ∷ w) = append_assoc cur (c ∷ []) w in
    rw plain (
      first_word w (cur ++ (c ∷ [])) rest (ground arith) (ap is_empty longer ∙ some_word)
      ∙ ap (λ (l : Bytes). l ∷ words_from [] rest) longer)

no_paren :
    (w rest : Bytes)
    → all is_plain w ≡ true
    → rfind b')' rest ≡ none
    → rfind b')' (w ++ rest) ≡ none
unfolding rfind
no_paren [] rest h r = r
no_paren (c ∷ w) rest h r = ground (arith, no_paren w rest)

behind_blank : (l : Bytes) → rfind b')' l ≡ none → rfind b')' (32 ∷ l) ≡ none
unfolding rfind
behind_blank l h = ground (arith, h)

module _ (front state ppid rest : Bytes) (state_is_plain : all is_plain state ≡ true)
    (ppid_is_plain : all is_plain ppid ≡ true) (some_state : is_empty state ≡ false)
    (some_ppid : is_empty ppid ≡ false) (closed : rfind b')' rest ≡ none) where
  abbrev fields : Bytes
  fields = state ++ (32 ∷ (ppid ++ (32 ∷ rest)))

  last_paren : rfind b')' (front ++ (b')' ∷ 32 ∷ fields)) ≡ some (length front)
  last_paren = rfind_last b')' front (32 ∷ fields) (
      behind_blank fields (
        no_paren state (32 ∷ (ppid ++ (32 ∷ rest))) state_is_plain (
          behind_blank (ppid ++ (32 ∷ rest))
            (no_paren ppid (32 ∷ rest) ppid_is_plain (behind_blank rest closed)))))

  two_words : second_word (words fields) ≡ atoi ppid
  unfolding words
  two_words =
      rw
        (
          first_word state [] (ppid ++ (32 ∷ rest)) state_is_plain some_state,
          first_word ppid [] rest ppid_is_plain some_ppid,
        )
        refl

  long_enough : ltb (length front + 2) (length (front ++ (b')' ∷ 32 ∷ fields))) ≡ true
  long_enough = lt→ltb _ _ (
      omega (
        arith,
        length-append front (b')' ∷ 32 ∷ fields),
        length-append state (32 ∷ (ppid ++ (32 ∷ rest))),
      ))

  -- Let the text of /proc/<pid>/stat be anything up to a closing parenthesis, and then a blank and
  -- blank-separated fields, of which the first two are not empty, hold no white space and no closing
  -- parenthesis, and no closing parenthesis stands behind them. Then the parent is the number in the
  -- second field, whatever name of the program, parentheses and blanks included, stands before.
  pub ppid_of-second : ppid_of (front ++ (b')' ∷ 32 ∷ fields)) ≡ atoi ppid
  unfolding ppid_of
  ppid_of-second = rw (last_paren, long_enough, drop_beyond 2 front (b')' ∷ 32 ∷ fields)) two_words
