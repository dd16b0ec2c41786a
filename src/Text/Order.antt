-- ===== src/Text/Order.antt =====
-- operator< on strings is a total order.
use nano_sensor.Base.{◌≡◌, refl, true, false, [], ◌∷◌, arith}
use nano_sensor.Text.{Bytes, bytes_lt}

-- s is not above t.
abbrev pub Le : Bytes → Bytes → Type 0
Le s t = bytes_lt t s ≡ false

pub bytes_lt_irrefl : (s : Bytes) → bytes_lt s s ≡ false
bytes_lt_irrefl [] = refl
bytes_lt_irrefl (x ∷ s) = ground (arith, bytes_lt_irrefl s)

pub bytes_lt-le : (s t : Bytes) → bytes_lt s t ≡ true → Le s t
bytes_lt-le s [] h = absurd (ground (arith, h))
bytes_lt-le [] (y ∷ t) h = refl
bytes_lt-le (x ∷ s) (y ∷ t) h = ground (arith, bytes_lt-le s t)

pub Le-trans : (s t u : Bytes) → Le s t → Le t u → Le s u
Le-trans [] t u p q = nothing_below u
  where
    nothing_below : (u : Bytes) → bytes_lt u [] ≡ false
    nothing_below [] = refl
    nothing_below (x ∷ u) = refl
Le-trans (x ∷ s) [] u p q = absurd (ground (arith, p))
Le-trans (x ∷ s) (y ∷ t) [] p q = absurd (ground (arith, q))
Le-trans (x ∷ s) (y ∷ t) (z ∷ u) p q = ground (arith, Le-trans s t u)

pub Le-antisym : (s t : Bytes) → Le s t → Le t s → s ≡ t
Le-antisym [] [] p q = refl
Le-antisym [] (y ∷ t) p q = absurd (ground (arith, p, q))
Le-antisym (x ∷ s) [] p q = absurd (ground (arith, p, q))
Le-antisym (x ∷ s) (y ∷ t) p q = ground (arith, Le-antisym s t)
