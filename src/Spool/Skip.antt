-- ===== src/Spool/Skip.antt =====
-- The inner loop of commit in src/spool.cpp over frames.
use nano_sensor.Base.{
  ℕ, zero, suc, ◌+◌, ◌≤◌, ◌≡◌, refl, sym, ap, ◌∙◌, List, [], ◌∷◌, ◌++◌, arith, length, take, drop,
  All, length-append, drop_front,
}
use native.Mathlib.Numerals.{add-one}
use nano_sensor.Text.{Bytes}
use nano_sensor.Spool.Frame.{header_bytes, frame}
use nano_sensor.Spool.Codec.{Fits, header_fields, take-header, length-frame}
use nano_sensor.Spool.Reading.{encode}
use nano_sensor.Spool.Queue.{skip_loop}

drop-frame : (p rest : Bytes) → drop (header_bytes + length p) (frame p ++ rest) ≡ rest
drop-frame p rest =
    ap (λ (n : ℕ). drop n (frame p ++ rest)) (sym (length-frame p)) ∙ drop_front (frame p) rest

-- One frame is passed.
skip_frame :
    (fuel remaining : ℕ) (p rest : Bytes)
    → Fits p
    → skip_loop (suc fuel) (suc remaining) (frame p ++ rest) ≡ (
      (skip_loop fuel remaining rest).0 + 1,
      length (frame p) + (skip_loop fuel remaining rest).1,
    )
unfolding skip_loop
skip_frame fuel remaining p rest h =
    let (l, m, n, c) = header_fields p h in
    rw (take-header p rest, l, m, n) (rw (drop-frame p rest, length-frame p))

-- As many frames are passed as there are, at most `remaining`.
pub skip_loop-encode :
    (fuel remaining : ℕ) (ps : List Bytes)
    → length ps ≤ fuel
    → All Fits ps
    → skip_loop fuel remaining (encode ps)
      ≡ (length (take remaining ps), length (encode (take remaining ps)))
unfolding encode
skip_loop-encode fuel zero [] hf h = unfold skip_loop in refl
skip_loop-encode zero (suc r) [] hf h = unfold skip_loop in refl
skip_loop-encode (suc fuel) (suc r) [] hf h = unfold skip_loop in refl
skip_loop-encode zero r (p ∷ ps) hf h = absurd (omega arith)
skip_loop-encode (suc fuel) zero (p ∷ ps) hf h = unfold skip_loop in refl
skip_loop-encode (suc fuel) (suc r) (p ∷ ps) hf (hp, h) =
    skip_frame fuel r p (encode ps) hp
    ∙ rw (skip_loop-encode fuel r ps (omega arith) h, length-append, add-one)
