-- ===== src/Spool/StateFile.antt =====
-- The text of the state file of src/spool.cpp: five numbers, written by `<<` and read by `>>`.
use nano_sensor.Base.{
  ℕ, zero, suc, ◌+◌, ◌-◌, ◌*◌, ◌/◌, ◌%◌, ◌^◌, Bool, true, false, not, ◌&&◌, ◌||◌, [], ◌∷◌, ◌++◌,
  ltb, ◌==◌, if◌then◌else◌,
}
use nano_sensor.Text.{Bytes, take_while, drop_while, is_digit}

abbrev pub u64_mod : ℕ
u64_mod = 2 ^ 64

-- The digits of n in front of `acc`. A 64-bit number has 20 digits at most.
unfoldable pub print_loop : ℕ → ℕ → Bytes → Bytes
print_loop zero n acc = acc
print_loop (suc fuel) n acc =
    let acc' : Bytes = (b'0' + n % 10) ∷ acc in
    let more = print_loop fuel (n / 10) acc' in if n / 10 == 0 then acc' else more

-- `f << n`
unfoldable pub print_u64 : ℕ → Bytes
print_u64 n = print_loop 20 n []

-- The state of an input stream: what is left, and the bits eofbit and failbit.
pub record Stream : Type 0 where
  pub rest : Bytes
  pub eof : Bool
  pub failed : Bool

abbrev pub is_space : ℕ → Bool
is_space c = (c == b' ') || (ltb 8 c && ltb c 14)

-- The number that a run of digits denotes.
abbrev pub run_value : ℕ → Bytes → ℕ
run_value acc [] = acc
run_value acc (d ∷ ds) = run_value (acc * 10 + (d - b'0')) ds

abbrev pub at_end : Bytes → Bool
at_end [] = true
at_end (c ∷ cs) = false

-- The digits at the front, behind a sign that was read. No digit stores 0, a number that is too
-- large stores the largest, and both fail.
abbrev pub extract_digits : Bool → Bytes → Stream × ℕ
extract_digits negative cs =
    let run = take_while is_digit cs in
    let left = drop_while is_digit cs in
    let value = run_value 0 run in
    if at_end run
    then (record { rest = left; eof = at_end left; failed = true }, 0)
    else if not (ltb value u64_mod)
    then (record { rest = left; eof = at_end left; failed = true }, u64_mod - 1)
    else (
      record { rest = left; eof = at_end left; failed = false },
      (if negative then (u64_mod - value) % u64_mod else value),
    )

abbrev pub extract_signed : ℕ → Bytes → Bytes → Stream × ℕ
extract_signed c cs all =
    if c == b'-'
    then extract_digits true cs
    else if c == b'+'
    then extract_digits false cs
    else extract_digits false all

-- Behind the white space. At the end nothing is stored.
abbrev pub extract_from : Bytes → ℕ → Stream × ℕ
extract_from [] old = (record { rest = []; eof = true; failed = true }, old)
extract_from (c ∷ cs) old = extract_signed c cs (c ∷ cs)

-- `f >> v` on a uint64_t that holds `old`: a stream that is not good stores nothing.
unfoldable pub extract : Stream → ℕ → Stream × ℕ
extract f old =
    if f.eof || f.failed
    then (record f { failed = true }, old)
    else extract_from (drop_while is_space f.rest) old

-- The numbers of the state file.
pub record Cursor : Type 0 where
  pub segment : ℕ
  pub offset : ℕ
  pub sequence : ℕ
  pub committed : ℕ
  pub dropped : ℕ

-- f << read_segment_ << ' ' << read_offset_ << ' ' ... << '\n'
unfoldable pub print_cursor : Cursor → Bytes
print_cursor c =
    print_u64 c.segment
    ++ (b' '
        ∷ (print_u64 c.offset
            ++ (b' '
                ∷ (print_u64 c.sequence
                    ++ (b' '
                        ∷ (print_u64 c.committed
                            ++ (b' ' ∷ (print_u64 c.dropped ++ (10 ∷ [])))))))))

-- f >> seg >> off >> seq >> committed >> dropped, from their initial values, and the stream after.
unfoldable pub parse_cursor : Bytes → Stream × Cursor
parse_cursor text =
    let (f1, seg) = extract (record { rest = text; eof = false; failed = false }) 0 in
    let (f2, off) = extract f1 0 in
    let (f3, seq) = extract f2 1 in
    let (f4, committed) = extract f3 0 in
    let (f5, dropped) = extract f4 0 in
    (
      f5,
      record {
        segment = seg;
        offset = off;
        sequence = seq;
        committed = committed;
        dropped = dropped;
      },
    )
