-- ===== src/Vercmp/Range.antt =====
-- version_in_range of src/vercmp.cpp on adjacent ranges.
use nano_sensor.Base.{◌≡◌, Bool, false, ◌||◌, ◌&&◌, arith, []}
use nano_sensor.Base.Int.{is_positive}
use nano_sensor.Text.{Bytes}
use nano_sensor.Vercmp.{is_empty, version_compare, version_in_range}
use nano_sensor.Vercmp.Order.{version_compare-neg, version_compare-IsSign}
use nano_sensor.Vercmp.Transitive.{IsRelease, tokens_of, version_compare-Composes}

-- The half-open range from `lo`, included, to `hi`, excluded.
abbrev pub in_half_open : Bytes → Bytes → Bytes → Bool
in_half_open lo hi v = version_in_range v lo [] [] hi

-- On versions without a pre-release word, a half-open range with bounds that are not empty, which a
-- version `mid` that is not empty and lies within them
-- cuts in two holds exactly what the two parts hold, and no version lies in both.
pub version_in_range-split :
    (lo mid hi v : Bytes)
    → is_empty lo ≡ false
    → is_empty mid ≡ false
    → is_empty hi ≡ false
    → IsRelease (tokens_of lo)
    → IsRelease (tokens_of mid)
    → IsRelease (tokens_of hi)
    → IsRelease (tokens_of v)
    → is_positive (version_compare lo mid) ≡ false
    → is_positive (version_compare mid hi) ≡ false
    → (in_half_open lo hi v ≡ (in_half_open lo mid v || in_half_open mid hi v))
      × ((in_half_open lo mid v && in_half_open mid hi v) ≡ false)
unfolding version_in_range
version_in_range-split lo mid hi v nl nm nh rl rm rh rv lm mh = ground (
  arith,
  version_compare-neg lo v,
  version_compare-neg mid v,
  version_compare-neg hi v,
  version_compare-IsSign lo mid,
  version_compare-IsSign mid hi,
  version_compare-IsSign v lo,
  version_compare-IsSign v mid,
  version_compare-IsSign v hi,
  version_compare-Composes lo mid v rl rm rv,
  version_compare-Composes v mid hi rv rm rh,
  version_compare-Composes v lo mid rv rl rm,
  version_compare-Composes mid hi v rm rh rv,
)
