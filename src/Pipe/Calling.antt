-- ===== src/Pipe/Calling.antt =====
-- ns::ipc::call of src/ipc_windows.cpp. What each call of Windows returns is an argument.
use nano_sensor.Base.{
  ℕ, zero, suc, Option, none, some, List, [], ◌∷◌, ◌++◌, ◌≡◌, refl, ◌==◌, if◌then◌else◌,
}
use mathlib.Core.List.{append_assoc}
use nano_sensor.Base.Int.{pos}
use nano_sensor.Text.{Bytes, codes}
use nano_sensor.Json.{print_i64}
use nano_sensor.Pipe.Server.{win_error}

-- CreateFile in turn: all instances are busy and WaitNamedPipe succeeds, or fails with an error; the
-- open fails with another error; or there is a pipe.
pub data Opening : Type 0 where
  opened : Opening
  not_opened wait_failed : ℕ → Opening
  waited : Opening → Opening

-- The outcomes of one wait_io: the bytes of the rest of a message, a part of it, a time-out, an error.
pub data Reading : Type 0 where
  last : Bytes → Reading
  timed_out : Reading
  read_failed : ℕ → Reading
  more : Bytes → Reading → Reading

-- The call returns the response, or an error text; last_call_error has the number.
pub data Called : Type 0 where
  answered : Bytes → Called
  failed : Bytes → ℕ → Called

abbrev pub fail : Bytes → ℕ → Called
fail what e = failed (win_error what e) e

-- ERROR_FILE_NOT_FOUND is 2.
abbrev pub open_error : Bytes → ℕ → Called
open_error pipe_name e =
    if e == 2
    then failed (codes "no server on " ++ (pipe_name ++ codes " (is the service running?)")) e
    else fail (codes "opening the pipe") e

-- ERROR_SEM_TIMEOUT is 121. The error, none where the pipe is open.
unfoldable pub open_pipe : Bytes → Opening → Option Called
open_pipe pipe_name opened = none
open_pipe pipe_name (not_opened e) = some (open_error pipe_name e)
open_pipe pipe_name (wait_failed e) =
    if e == 121
    then some (fail (codes "waiting for a free pipe instance") e)
    else some (open_error pipe_name e)
open_pipe pipe_name (waited next) = open_pipe pipe_name next

-- The loop over the parts of the response, behind those that were read. WAIT_TIMEOUT is 258.
unfoldable pub read_loop : ℕ → Bytes → Reading → Called
read_loop timeout_ms response (last bytes) = answered (response ++ bytes)
read_loop timeout_ms response (more bytes rest) = read_loop timeout_ms (response ++ bytes) rest
read_loop timeout_ms response timed_out =
    failed (codes "server did not answer within " ++ (print_i64 (pos timeout_ms) ++ codes " ms"))
      258
read_loop timeout_ms response (read_failed e) = fail (codes "reading the response") e

abbrev pub written : ℕ → Option ℕ → Reading → Called
written timeout_ms none reading = read_loop timeout_ms [] reading
written timeout_ms (some e) reading = fail (codes "writing the request") e

unfoldable pub call : Bytes → ℕ → Opening → Option ℕ → Reading → Called
call pipe_name timeout_ms opening write reading = elim (open_pipe pipe_name opening) [
  | some error ↦ error
  | none ↦ written timeout_ms write reading
]

-- The parts of a message that ends.
abbrev pub parts : List Bytes → Bytes → Reading
parts [] end = last end
parts (b ∷ bs) end = more b (parts bs end)

abbrev pub joined : List Bytes → Bytes → Bytes
joined [] end = end
joined (b ∷ bs) end = b ++ joined bs end

read_loop-parts :
    (timeout_ms : ℕ) (response : Bytes) (bs : List Bytes) (end : Bytes)
    → read_loop timeout_ms response (parts bs end) ≡ answered (response ++ joined bs end)
unfolding read_loop
read_loop-parts timeout_ms response [] end = refl
read_loop-parts timeout_ms response (b ∷ bs) end =
    rw (read_loop-parts timeout_ms (response ++ b) bs end, append_assoc response b (joined bs end))

-- However often all instances are busy first.
abbrev pub after_waits : ℕ → Opening
after_waits zero = opened
after_waits (suc n) = waited (after_waits n)

open_pipe-waits : (pipe_name : Bytes) (n : ℕ) → open_pipe pipe_name (after_waits n) ≡ none
unfolding open_pipe
open_pipe-waits pipe_name zero = refl
open_pipe-waits pipe_name (suc n) = open_pipe-waits pipe_name n

-- A response that comes in parts is returned whole, after any number of waits for an instance.
pub call-parts :
    (pipe_name : Bytes) (timeout_ms n : ℕ) (bs : List Bytes) (end : Bytes)
    → call pipe_name timeout_ms (after_waits n) none (parts bs end) ≡ answered (joined bs end)
unfolding call
call-parts pipe_name timeout_ms n bs end =
    rw (open_pipe-waits pipe_name n, call) (read_loop-parts timeout_ms [] bs end)
