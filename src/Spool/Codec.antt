-- ===== src/Spool/Codec.antt =====
-- The words and the frames of src/spool.cpp, written and read.
use Prim.Native.Nat.{bit_and, bit_xor}
use nano_sensor.Base.{
  ℕ, zero, suc, ◌+◌, ◌/◌, ◌%◌, ◌^◌, ◌≤◌, ◌<◌, ◌≡◌, refl, sym, ap, ◌∙◌, Bool-cases, inl, inr,
  length-take, length-drop, [], ◌∷◌, ◌++◌, arith, length, take, drop, ◌==◌, length-append,
  take_front, drop_front, take_short,
}
use nano_sensor.Base.Bits.{low_byte, or_field, bit_xor-lt}
use nano_sensor.Text.{Bytes, codes}
use nano_sensor.Spool.Frame.{
  magic, header_bytes, u32_mod, crc_shift, crc_turns, crc_table, crc_loop, crc32, put_u32, get_u32,
  frame, short, whole, read_frame,
}

crc_check : crc32 (codes "123456789") ≡ 0xCBF43926
unfolding crc32
crc_check = refl

crc_shift-lt : (c : ℕ) → c < u32_mod → crc_shift c < u32_mod
unfolding crc_shift
crc_shift-lt c h = ground (arith, bit_xor-lt 32 0xEDB88320 (c / 2) (omega arith) (omega arith))

crc_turns-lt : (k c : ℕ) → c < u32_mod → crc_turns k c < u32_mod
unfolding crc_turns
crc_turns-lt zero c h = h
crc_turns-lt (suc k) c h = crc_turns-lt k (crc_shift c) (crc_shift-lt c h)

crc_table-lt : (i : ℕ) → i < 256 → crc_table i < u32_mod
unfolding crc_table
crc_table-lt i h = crc_turns-lt 8 i (omega arith)

crc_loop-lt : (c : ℕ) (p : Bytes) → c < u32_mod → crc_loop c p < u32_mod
unfolding crc_loop
crc_loop-lt c [] h = h
crc_loop-lt c (x ∷ p) h =
    let i = bit_and (bit_xor c x) 0xFF in
    let entry : crc_table i < u32_mod = crc_table-lt i (omega (arith, low_byte (bit_xor c x))) in
    crc_loop-lt (bit_xor (crc_table i) (c / 2 ^ 8)) p
      (bit_xor-lt 32 (crc_table i) (c / 2 ^ 8) entry (omega arith))

crc32-lt : (p : Bytes) → crc32 p < u32_mod
crc32-lt p =
    unfold crc32 in
    bit_xor-lt 32 (crc_loop 0xFFFFFFFF p) 0xFFFFFFFF (crc_loop-lt 0xFFFFFFFF p (omega arith))
      (omega arith)

-- get_u32 reads the word that put_u32 wrote, whatever follows it.
pub get_u32-put_u32 : (v : ℕ) (rest : Bytes) → v < u32_mod → get_u32 (put_u32 v ++ rest) ≡ v
unfolding get_u32 put_u32
get_u32-put_u32 v rest h = simp low_byte (
    ground (
      arith,
      or_field 8 (v % 256) (v / 2 ^ 8 % 256) (omega arith),
      or_field 16 (v % 2 ^ 16) (v / 2 ^ 16 % 256) (omega arith),
      or_field 24 (v % 2 ^ 24) (v / 2 ^ 24 % 256) (omega arith),
    ))

-- A payload whose size the length field can hold.
abbrev pub Fits : Bytes → Type 0
Fits p = length p < u32_mod

pub header_of : Bytes → Bytes
header_of p = put_u32 magic ++ (put_u32 (length p % u32_mod) ++ put_u32 (crc32 p))

pub take-header : (p rest : Bytes) → take header_bytes (frame p ++ rest) ≡ header_of p
unfolding frame put_u32 header_of
take-header p rest = refl

drop-header : (p rest : Bytes) → drop header_bytes (frame p ++ rest) ≡ p ++ rest
unfolding frame put_u32
drop-header p rest = refl

length_field :
    (p : Bytes) → Fits p → get_u32 (put_u32 (length p % u32_mod) ++ put_u32 (crc32 p)) ≡ length p
length_field p h =
    get_u32-put_u32 (length p % u32_mod) (put_u32 (crc32 p)) (omega arith) ∙ omega arith

pub header_fields :
    (p : Bytes)
    → Fits p
    → (length (header_of p) ≡ 12)
      × (get_u32 (header_of p) ≡ magic)
      × (get_u32 (drop 4 (header_of p)) ≡ length p)
      × (get_u32 (drop 8 (header_of p)) ≡ crc32 p)
unfolding put_u32
header_fields p h = (
  unfold header_of put_u32 in refl,
  unfold header_of in get_u32-put_u32 magic _ (omega arith),
  unfold header_of in length_field p h,
  unfold header_of in get_u32-put_u32 (crc32 p) [] (crc32-lt p),
)

pub length-frame : (p : Bytes) → length (frame p) ≡ 12 + length p
unfolding frame put_u32
length-frame p = omega arith

-- Reading where a frame stands gives its payload and what follows it.
pub read_frame-frame : (p rest : Bytes) → Fits p → read_frame (frame p ++ rest) ≡ whole p rest
unfolding read_frame
read_frame-frame p rest h =
    let (l, m, n, c) = header_fields p h in
    rw (take-header p rest, drop-header p rest, l, m, n, c, take_front, drop_front) (ground arith)

-- The prefixes of a frame that are not all of it.
abbrev pub IsTorn : Bytes → Type 0
IsTorn t = (p : Bytes) × (x : ℕ) × (rest : Bytes) × Fits p × (frame p ≡ t ++ (x ∷ rest))

module _ (t p : Bytes) (x : ℕ) (rest : Bytes) (e : frame p ≡ t ++ (x ∷ rest)) where
  torn_header : header_bytes ≤ length t → take header_bytes t ≡ header_of p
  torn_header l =
      sym (take_short header_bytes t (x ∷ rest) l)
      ∙ ap (take header_bytes) (sym e)
      ∙ (unfold frame put_u32 header_of in refl)

  torn_payload : header_bytes ≤ length t → length (drop header_bytes t) < length p
  torn_payload l =
      let sizes : length (frame p) ≡ length (t ++ (x ∷ rest)) = ap length e in
      omega (arith, sizes, length-frame p, length-append t (x ∷ rest), length-drop header_bytes t)

-- Where a frame is cut off, reading breaks in silence.
pub read_frame-torn : (t : Bytes) → IsTorn t → read_frame t ≡ short
unfolding read_frame
read_frame-torn t (p, x, rest, h, e) =
    elim (Bool-cases (length (take header_bytes t) == header_bytes)) [
      | inl full ↦
          let l : header_bytes ≤ length t = ground (arith, length-take header_bytes t) in
          let (size, m, n, c) = header_fields p h in
          rw (torn_header t p x rest e l, size, m, n, c)
            (ground
              (arith, torn_payload t p x rest e l, length-take (length p) (drop header_bytes t)))
      | inr cut ↦ rw cut
    ]
