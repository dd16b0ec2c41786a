-- ===== src/Vercmp/Upstream.antt =====
-- version_upstream_part of src/vercmp.cpp on package versions.
use nano_sensor.Base.{◌≡◌, refl, true, none, [], ◌∷◌, ◌++◌, arith, take_front}
use mathlib.Core.List.{append-nil}
use nano_sensor.Text.{find_first, rfind_last, drop-suc, Bytes, find, rfind, all, is_digit}
use nano_sensor.Vercmp.{digits_loop, strip_epoch, up_to, version_upstream_part}

no_colon : (e : Bytes) → all is_digit e ≡ true → find b':' e ≡ none
unfolding find
no_colon [] h = refl
no_colon (x ∷ e) h = ground (arith, no_colon e)

-- A view that begins with digits and a colon loses both.
pub strip_epoch_digits :
    (e rest : Bytes)
    → all is_digit e ≡ true
    → strip_epoch (e ++ (b':' ∷ rest)) ≡ (rest, digits_loop 0 e)
unfolding strip_epoch
strip_epoch_digits e rest h =
    rw (find_first b':' e rest (no_colon e h), take_front e (b':' ∷ rest), h, drop-suc e b':' rest)

-- Empty, or a packaging mark such as "+dfsg" that begins with a plus sign.
abbrev pub IsMark : Bytes → Type 0
IsMark [] = Unit
IsMark (c ∷ m) = c ≡ b'+'

cut_mark : (u m : Bytes) → IsMark m → find b'+' u ≡ none → up_to (find b'+' (u ++ m)) (u ++ m) ≡ u
cut_mark u [] hm hu = rw (append-nil, hu)
cut_mark u (c ∷ m) hm hu = rw (hm, find_first b'+' u m hu) (take_front u (b'+' ∷ m))

-- From an epoch of digits, a colon, an upstream version without a plus sign, a packaging mark, a
-- dash and a revision without a dash, version_upstream_part returns the upstream version; it may
-- hold dashes itself.
pub version_upstream_part-package :
    (e u m r : Bytes)
    → all is_digit e ≡ true
    → find b'+' u ≡ none
    → IsMark m
    → rfind b'-' r ≡ none
    → version_upstream_part (e ++ (b':' ∷ ((u ++ m) ++ (b'-' ∷ r)))) ≡ u
unfolding version_upstream_part
version_upstream_part-package e u m r he hu hm hr =
    rw
      (
        strip_epoch_digits e ((u ++ m) ++ (b'-' ∷ r)) he,
        rfind_last b'-' (u ++ m) r hr,
        take_front (u ++ m) (b'-' ∷ r),
      )
      (cut_mark u m hm hu)
