-- ===== src/Python/Float/Sample.antt =====
-- A stand-in for binary floats with which examples can be run: millionths, and a NaN.
use global_payments_api.Prelude.{
  ℕ, suc, ◌+◌, ◌-◌, ◌*◌, ◌/◌, ◌^◌, String, Bool, true, false, leb, ltb, eqb, Option, none, some,
  if◌then◌else◌, ℤ, pos, negsuc, magnitude,
}
use global_payments_api.Python.Decimal.{Decimal, finite, infinite, not_a_number, show}
use global_payments_api.Python.Float.{Float}

abbrev pub Millionths : Type 0
Millionths = Option ℤ

abbrev up : ℤ → ℕ
up (pos n) = n
up (negsuc n) = 0

abbrev down : ℤ → ℕ
down (pos n) = 0
down (negsuc n) = suc n

abbrev minus : ℕ → ℕ → ℤ
minus a b = if leb b a then pos (a - b) else negsuc (b - a - 1)

abbrev signed : Bool → ℕ → ℤ
signed true n = minus 0 n
signed false n = pos n

abbrev scaled : ℕ → ℤ → ℕ
scaled c (pos k) = c * 10 ^ k * 1000000
scaled c (negsuc k) = c * 1000000 / 10 ^ suc k

abbrev of_decimal : Decimal → Millionths
of_decimal (finite s c e) = some (signed s (scaled c e))
of_decimal (infinite s) = none
of_decimal not_a_number = none

abbrev lift : (ℤ → ℤ → ℤ) → Millionths → Millionths → Millionths
lift f (some a) (some b) = some (f a b)
lift f _ _ = none

abbrev test : (ℤ → ℤ → Bool) → Millionths → Millionths → Bool
test f (some a) (some b) = f a b
test f _ _ = false

abbrev on_value : (ℕ → ℕ) → Millionths → Millionths
on_value f (some a) = some (pos (f (magnitude a)))
on_value f none = none

abbrev text_of : Millionths → String
text_of (some a) = show (magnitude a)
text_of none = "nan"

abbrev pub is_nan : Millionths → Bool
is_nan (some a) = false
is_nan none = true

abbrev pub sample_float : Float
sample_float = record {
  F = Millionths;
  nan = none;
  of_decimal = of_decimal;
  of_text = λ s. none;
  of_int = λ n. some (signed false (magnitude n * 1000000));
  sub = lift (λ a b. minus (up a + down b) (up b + down a));
  div = lift (λ a b. pos (magnitude a * 1000000 / magnitude b));
  mul = lift (λ a b. pos (magnitude a * magnitude b / 1000000));
  abs = on_value (λ n. n);
  round2 = on_value (λ n. (n + 5000) / 10000 * 10000);
  gt = test (λ a b. ltb (up b + down a) (up a + down b));
  eq = test (λ a b. eqb (up a + down b) (up b + down a));
  tolerance = some (pos 5000);
  to_text = text_of;
}
