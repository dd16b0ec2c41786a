-- ===== src/Vercmp/Tests.antt =====
-- Runs of the version comparison, from tests/test_vercmp.cpp, and examples.
use nano_sensor.Base.{◌≡◌, refl, false, [], ◌||◌, ◌&&◌, ◌-◌, ◌^◌, All, ltb, if◌then◌else◌}
use nano_sensor.Base.Int.{pos, minus_one, neg}
use nano_sensor.Text.{codes, find, rfind}
use nano_sensor.Vercmp.{
  u64_mod, alpha_token, is_prerelease_word, digits_value, tokenize_loop, tokenize, cmp_token,
  cmp_remainder, cmp_tokens, strip_epoch, version_compare, version_upstream_part,
}
use nano_sensor.Vercmp.Order.{version_compare-neg}
use nano_sensor.Vercmp.Transitive.{Composes, version_compare-Composes}
use nano_sensor.Vercmp.Cycle.{version_compare-cycle}
use nano_sensor.Vercmp.Digits.{decimal, digits_value-decimal}
use nano_sensor.Vercmp.Tokens.{IsScanned, tokenize-IsScanned}
use nano_sensor.Vercmp.Range.{in_half_open, version_in_range-split}

numeric_not_textual : version_compare (codes "1.10") (codes "1.9") ≡ pos 1
unfolding version_compare strip_epoch find tokenize tokenize_loop digits_value cmp_tokens cmp_token
    cmp_remainder is_prerelease_word
numeric_not_textual = refl

prerelease_before_release : version_compare (codes "1.0rc1") (codes "1.0") ≡ minus_one
unfolding version_compare strip_epoch find tokenize tokenize_loop digits_value cmp_tokens cmp_token
    cmp_remainder is_prerelease_word
prerelease_before_release = refl

patch_after_release : version_compare (codes "1.0") (codes "1.0p2") ≡ minus_one
unfolding version_compare strip_epoch find tokenize tokenize_loop digits_value cmp_tokens cmp_token
    cmp_remainder is_prerelease_word
patch_after_release = refl

patch_before_prerelease : version_compare (codes "1.0p2") (codes "1.0rc1") ≡ minus_one
unfolding version_compare strip_epoch find tokenize tokenize_loop digits_value cmp_tokens cmp_token
    cmp_remainder is_prerelease_word
patch_before_prerelease = refl

epoch_dominates : version_compare (codes "1:1.0") (codes "9.9") ≡ pos 1
unfolding version_compare strip_epoch find tokenize tokenize_loop digits_value cmp_tokens cmp_token
    cmp_remainder is_prerelease_word
epoch_dominates = refl

upstream : version_upstream_part (codes "1:1.2-beta-3+dfsg-2ubuntu1") ≡ codes "1.2-beta-3"
unfolding version_upstream_part strip_epoch find rfind
upstream = refl

version_compare-neg_example :
    version_compare (codes "1.9") (codes "1.10")
    ≡ neg (version_compare (codes "1.10") (codes "1.9"))
version_compare-neg_example = version_compare-neg (codes "1.10") (codes "1.9")

version_compare-Composes_example :
    Composes
      (version_compare (codes "1.9") (codes "1.10"))
      (version_compare (codes "1.10") (codes "2:0p1"))
      (version_compare (codes "1.9") (codes "2:0p1"))
unfolding strip_epoch find tokenize tokenize_loop digits_value is_prerelease_word
version_compare-Composes_example =
    version_compare-Composes (codes "1.9") (codes "1.10") (codes "2:0p1") (refl, (refl, tt))
      (refl, (refl, tt)) (refl, (refl, (refl, tt)))

version_compare-cycle_example :
    (version_compare (codes "1rc") (codes "1") ≡ minus_one)
    × (version_compare (codes "1") (codes "1p") ≡ minus_one)
    × (version_compare (codes "1p") (codes "1rc") ≡ minus_one)
unfolding strip_epoch find tokenize tokenize_loop digits_value is_prerelease_word
version_compare-cycle_example =
    version_compare-cycle (codes "1") (codes "1rc") (codes "1p") (tokenize (codes "1")) [] []
      (alpha_token (codes "rc")) (alpha_token (codes "p")) (refl, refl) (refl, refl) refl refl refl
      refl refl refl

digits_value-decimal_example :
    digits_value (codes "0042")
    ≡ (if ltb (decimal 0 (codes "0042")) (10 ^ 18) then decimal 0 (codes "0042") else u64_mod - 1)
digits_value-decimal_example = digits_value-decimal (codes "0042") refl

tokenize-IsScanned_example : All IsScanned (tokenize (codes "2.0Beta~1"))
tokenize-IsScanned_example = tokenize-IsScanned (codes "2.0Beta~1")

version_in_range-split_example :
    (in_half_open (codes "1") (codes "3") (codes "2.4") ≡ (
      in_half_open (codes "1") (codes "2") (codes "2.4")
      || in_half_open (codes "2") (codes "3") (codes "2.4")))
    × ((in_half_open (codes "1") (codes "2") (codes "2.4")
          && in_half_open (codes "2") (codes "3") (codes "2.4"))
        ≡ false)
unfolding version_compare strip_epoch find tokenize tokenize_loop digits_value cmp_tokens cmp_token
    cmp_remainder is_prerelease_word
version_in_range-split_example =
    version_in_range-split (codes "1") (codes "2") (codes "3") (codes "2.4") refl refl refl
      (refl, tt) (refl, tt) (refl, tt) (refl, (refl, tt)) refl refl
