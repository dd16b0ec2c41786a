-- ===== src/Spool/Frame.antt =====
-- The record frames of src/spool.cpp: u32 magic, u32 length, u32 crc32, payload. A char array is
-- a list of bytes.
use Prim.Native.Nat.{bit_and, bit_or, bit_xor}
use nano_sensor.Base.{
  ℕ, zero, suc, ◌*◌, ◌/◌, ◌%◌, ◌^◌, not, Option, none, some, List, [], ◌∷◌, ◌++◌, ltb, ◌==◌,
  if◌then◌else◌, length, take, drop, get_or,
}
use nano_sensor.Text.{Bytes}

abbrev pub magic : ℕ
magic = 0x4E535031

abbrev pub header_bytes : ℕ
header_bytes = 12

abbrev pub u32_mod : ℕ
u32_mod = 2 ^ 32

-- One turn of the inner loop of the table, and the table's entry i.
unfoldable pub crc_shift : ℕ → ℕ
crc_shift c = if bit_and c 1 == 1 then bit_xor 0xEDB88320 (c / 2) else c / 2

unfoldable pub crc_turns : ℕ → ℕ → ℕ
crc_turns zero c = c
crc_turns (suc k) c = crc_turns k (crc_shift c)

unfoldable pub crc_table : ℕ → ℕ
crc_table i = crc_turns 8 i

-- The loop over the data that is left.
unfoldable pub crc_loop : ℕ → Bytes → ℕ
crc_loop c [] = c
crc_loop c (p ∷ ps) = crc_loop (bit_xor (crc_table (bit_and (bit_xor c p) 0xFF)) (c / 2 ^ 8)) ps

unfoldable pub crc32 : Bytes → ℕ
unfolding crc_shift crc_turns crc_table crc_loop
crc32 bytes = bit_xor (crc_loop 0xFFFFFFFF bytes) 0xFFFFFFFF

-- The four bytes that put_u32 writes.
unfoldable pub put_u32 : ℕ → Bytes
put_u32 v =
    bit_and v 0xFF
    ∷ bit_and (v / 2 ^ 8) 0xFF
    ∷ bit_and (v / 2 ^ 16) 0xFF
    ∷ bit_and (v / 2 ^ 24) 0xFF
    ∷ []

-- The word in the bytes src[0] to src[3].
unfoldable pub get_u32 : Bytes → ℕ
get_u32 src =
    bit_or (bit_or (bit_or (get_or src 0 0) (get_or src 1 0 * 2 ^ 8)) (get_or src 2 0 * 2 ^ 16))
      (get_or src 3 0 * 2 ^ 24)

-- What append writes for a payload: the header and then the payload.
unfoldable pub frame : Bytes → Bytes
frame payload =
    put_u32 magic ++ (put_u32 (length payload % u32_mod) ++ (put_u32 (crc32 payload) ++ payload))

-- The messages that peek leaves in `error`.
pub data PeekError : Type 0 where
  magic_mismatch failed_crc : PeekError

-- One round of the reading loop of peek: it breaks in silence, breaks with a message, or has a
-- payload and goes on behind it.
pub data Round : Type 0 where
  short : Round
  damaged : PeekError → Round
  whole : Bytes → Bytes → Round

abbrev pub read_payload : ℕ → ℕ → Bytes → Round
read_payload len want_crc f =
    let payload = take len f in
    if ltb (length payload) len
    then short
    else if not (crc32 payload == want_crc)
    then damaged failed_crc
    else whole payload (drop len f)

unfoldable pub read_frame : Bytes → Round
read_frame f =
    let header = take header_bytes f in
    if not (length header == header_bytes)
    then short
    else if not (get_u32 header == magic)
    then damaged magic_mismatch
    else read_payload (get_u32 (drop 4 header)) (get_u32 (drop 8 header)) (drop header_bytes f)

-- The loop of peek over one file, for at most `room` records. Each round takes a header at least,
-- so the length of what is left is enough fuel.
unfoldable pub read_loop : ℕ → ℕ → Bytes → List Bytes × Option PeekError
read_loop fuel zero f = ([], none)
read_loop zero (suc room) f = ([], none)
read_loop (suc fuel) (suc room) f = elim (read_frame f) [
  | short ↦ ([], none)
  | damaged e ↦ ([], some e)
  | whole payload rest ↦ let (out, e) = read_loop fuel room rest in (payload ∷ out, e)
]

unfoldable pub read_records : ℕ → Bytes → List Bytes × Option PeekError
read_records room f = read_loop (length f) room f
