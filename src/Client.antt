-- ===== src/Client.antt =====
-- src/nsctl.cpp: the console client. The pipe, which ns::ipc::call reaches, is an argument.
use nano_sensor.Base.{
  ℕ, suc, ◌+◌, ◌-◌, ◌^◌, ◌%◌, ◌<◌, ◌≤◌, ◌≡◌, Bool, true, false, not, Option, none, some, List, [],
  ◌∷◌, ◌++◌, ltb, ◌==◌, if◌then◌else◌, drop, arith,
}
use nano_sensor.Text.{Bytes, codes, bytes_eq, find, starts_with, take_while, drop_while, is_digit}
use nano_sensor.Spool.StateFile.{is_space, run_value}
use nano_sensor.Cve.Names.{is_empty}
use nano_sensor.Report.Commands.{Ran, exit_with}
mod Tests

-- An unsigned long has 32 bits on Windows, the only system that nsctl is built for.
abbrev pub long_of : Bool → Bytes → ℕ
long_of negative cs =
    let value = run_value 0 (take_while is_digit cs) in
    if not (ltb value (2 ^ 32))
    then 2 ^ 32 - 1
    else if negative
    then (2 ^ 32 - value) % 2 ^ 32
    else value

abbrev pub long_from : Bytes → ℕ
long_from [] = 0
long_from (c ∷ cs) =
    if c == b'-'
    then long_of true cs
    else if c == b'+'
    then long_of false cs
    else long_of false (c ∷ cs)

-- std::strtoul in base 10.
unfoldable pub strtoul : Bytes → ℕ
strtoul text = long_from (drop_while is_space text)

pub record Call : Type 0 where
  pub pipe : Bytes
  pub timeout_ms : ℕ
  pub request : Bytes

abbrev pub default_call : Call
default_call = record { pipe = codes "\\\\.\\pipe\\nano-sensor"; timeout_ms = 10000; request = [] }

abbrev pub add_word : Bytes → Call → Call
add_word a c = record c { request = if is_empty c.request then a else c.request ++ (b' ' ∷ a) }

-- What an argument is when another follows it.
pub data Argument : Type 0 where
  takes_pipe takes_timeout asks_help word : Argument

unfoldable pub argument_of : Bytes → Argument
argument_of a =
    if bytes_eq a (codes "--pipe")
    then takes_pipe
    else if bytes_eq a (codes "--timeout")
    then takes_timeout
    else if bytes_eq a (codes "-h")
    then asks_help
    else if bytes_eq a (codes "--help")
    then asks_help
    else word

-- none where main prints the usage and returns 0. An option without its value is a word.
unfoldable pub parse_call : List Bytes → Call → Option Call
parse_call [] c = some c
parse_call (a ∷ []) c = elim (argument_of a) [
  | takes_pipe ↦ some (add_word a c)
  | takes_timeout ↦ some (add_word a c)
  | asks_help ↦ none
  | word ↦ some (add_word a c)
]
parse_call (a ∷ v ∷ rest) c = elim (argument_of a) [
  | takes_pipe ↦ parse_call rest (record c { pipe = v })
  | takes_timeout ↦ parse_call rest (record c { timeout_ms = strtoul v })
  | asks_help ↦ none
  | word ↦ parse_call (v ∷ rest) (add_word a c)
]

abbrev pub wait_behind : Bytes → Option ℕ → ℕ
wait_behind request none = 30000
wait_behind request (some sp) = strtoul (drop (suc sp) request)

-- The milliseconds that a scan request waits for.
unfoldable pub wait_of : Bytes → ℕ
wait_of request = wait_behind request (find b' ' request)

abbrev pub longest : ℕ → ℕ → ℕ
longest wait timeout = if ltb timeout wait then wait else timeout

unfoldable pub with_wait : Call → Call
with_wait c =
    if starts_with (codes "scan") c.request
    then record c { timeout_ms = longest ((wait_of c.request + 5000) % 2 ^ 32) c.timeout_ms }
    else c

-- The reply, or none where the call failed.
abbrev pub print_reply : Option Bytes → Ran
print_reply none = exit_with 1
print_reply (some response) = record {
  code = if starts_with (codes "{\"error\"") response then 1 else 0;
  stdout = response ++ (10 ∷ []);
}

module _ (call : Bytes → Bytes → ℕ → Option Bytes) where
  abbrev pub send_call : Option Call → Ran
  send_call none = exit_with 0
  send_call (some c) = let d = with_wait c in print_reply (call d.pipe d.request d.timeout_ms)

  -- main, on the arguments behind the name of the program.
  unfoldable pub run_client : List Bytes → Ran
  run_client [] = exit_with 2
  run_client (a ∷ rest) = send_call (parse_call (a ∷ rest) default_call)

longest-le : (wait timeout : ℕ) → wait ≤ longest wait timeout
longest-le wait timeout = ground arith

-- The client waits five seconds longer than the scan it asks for, unless the sum is no unsigned long.
with_wait-covers :
    (c : Call)
    → starts_with (codes "scan") c.request ≡ true
    → wait_of c.request + 5000 < 2 ^ 32
    → wait_of c.request + 5000 ≤ (with_wait c).timeout_ms
unfolding with_wait
with_wait-covers c is_scan fits =
    let kept : (wait_of c.request + 5000) % 2 ^ 32 ≡ wait_of c.request + 5000 = omega arith in
    rw is_scan (rw kept (longest-le (wait_of c.request + 5000) c.timeout_ms))
