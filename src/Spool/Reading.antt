-- ===== src/Spool/Reading.antt =====
-- What peek of src/spool.cpp reads from one segment file.
use nano_sensor.Base.{
  ℕ, zero, suc, ◌≤◌, ◌≡◌, refl, ◌⊎◌, inl, inr, none, List, [], ◌∷◌, ◌++◌, arith, length, take,
  length-append, All,
}
use mathlib.Core.List.{append_assoc}
use nano_sensor.Text.{Bytes}
use nano_sensor.Spool.Frame.{frame, short, read_frame, read_loop, read_records}
use nano_sensor.Spool.Codec.{Fits, IsTorn, length-frame, read_frame-frame, read_frame-torn}

-- The frames of payloads, one behind the other.
unfoldable pub encode : List Bytes → Bytes
encode [] = []
encode (p ∷ ps) = frame p ++ encode ps

-- What may stand behind the last whole frame: nothing, or a frame that is cut off.
abbrev pub IsTail : Bytes → Type 0
IsTail t = (t ≡ []) ⊎ IsTorn t

tail_short : (t : Bytes) → IsTail t → read_frame t ≡ short
tail_short t (inl e) = rw e (unfold read_frame in refl)
tail_short t (inr h) = read_frame-torn t h

read_loop_tail : (fuel room : ℕ) (t : Bytes) → IsTail t → read_loop fuel room t ≡ ([], none)
unfolding read_loop
read_loop_tail zero zero t h = refl
read_loop_tail zero (suc room) t h = refl
read_loop_tail (suc fuel) zero t h = refl
read_loop_tail (suc fuel) (suc room) t h = rw (tail_short t h, read_loop)

read_loop-encode :
    (fuel room : ℕ) (ps : List Bytes) (t : Bytes)
    → length ps ≤ fuel
    → All Fits ps
    → IsTail t
    → read_loop fuel room (encode ps ++ t) ≡ (take room ps, none)
unfolding read_loop encode
read_loop-encode fuel zero [] t hf h ht = read_loop_tail fuel zero t ht
read_loop-encode fuel (suc room) [] t hf h ht = read_loop_tail fuel (suc room) t ht
read_loop-encode zero room (p ∷ ps) t hf h ht = absurd (omega arith)
read_loop-encode (suc fuel) zero (p ∷ ps) t hf h ht = refl
read_loop-encode (suc fuel) (suc room) (p ∷ ps) t hf (hp, h) ht = rw append_assoc (
    rw (read_frame-frame p (encode ps ++ t) hp, read_loop)
      (rw (read_loop-encode fuel room ps t (omega arith) h ht)))

pub length-encode-ge : (ps : List Bytes) → length ps ≤ length (encode ps)
unfolding encode
length-encode-ge [] = omega arith
length-encode-ge (p ∷ ps) =
    omega (arith, length-append (frame p) (encode ps), length-frame p, length-encode-ge ps)

-- From the frames of payloads, with nothing or with a cut-off frame behind them, peek reads the
-- payloads, as many as there is room for, and leaves no message.
pub read_records-encode :
    (room : ℕ) (ps : List Bytes) (t : Bytes)
    → All Fits ps
    → IsTail t
    → read_records room (encode ps ++ t) ≡ (take room ps, none)
unfolding read_records
read_records-encode room ps t h ht =
    read_loop-encode (length (encode ps ++ t)) room ps t
      (omega (arith, length-append (encode ps) t, length-encode-ge ps)) h ht
