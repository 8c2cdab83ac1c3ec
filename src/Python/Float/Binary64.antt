-- ===== src/Python/Float/Binary64.antt =====
-- Python's binary floats, IEEE 754 doubles rounded to nearest with ties to even. A finite float is
-- its multiple of 2^-1074, the least positive one; a zero's sign is not kept. What `repr` and the
-- reading of a text do is not modelled: `binary64` takes both.
pub mod Rounding
pub mod Hundredths
use global_payments_api.Prelude.{
  ℕ, zero, suc, ◌+◌, ◌-◌, ◌*◌, ◌/◌, ◌%◌, ◌^◌, String, Bool, true, false, ◌&&◌, ◌||◌, leb, ltb, eqb,
  Option, none, some, if◌then◌else◌, not, ℤ, pos, negsuc,
}
use global_payments_api.Python.Decimal.{Decimal, finite, infinite, not_a_number}
use global_payments_api.Python.Float.{Float}

-- `value negative n` is n · 2^-1074 with its sign.
pub data Double : Type 0 where
  value : Bool → ℕ → Double
  infinity : Bool → Double
  nan : Double

-- How many bits a number has, of at most so many.
pub width : ℕ → ℕ → ℕ
width zero q = 0
width (suc f) q = let rest = width f (q / 2) in if eqb q 0 then 0 else suc rest

-- How far the last bit of a quotient's 53 bits is from its last digit.
pub shift : ℕ → ℕ
unfolding width
shift q = width 4000 q - 53

-- The nearest multiple of `2 ^ s` to `n / d`; between two, the even one.
pub nearest : ℕ → ℕ → ℕ → ℕ
nearest n d s =
    let k = n / (d * 2 ^ s) in
    let r = n % (d * 2 ^ s) in
    (if ltb (d * 2 ^ s) (2 * r) || (eqb (d * 2 ^ s) (2 * r) && eqb (k % 2) 1) then suc k else k)
    * 2 ^ s

unfoldable pub round : ℕ → ℕ → ℕ
unfolding nearest shift
round n d = nearest n d (shift (n / d))

-- One, in these units.
abbrev pub one : ℕ
one = 2 ^ 1074

abbrev pub limit : ℕ
limit = 2 ^ 2098

-- What does not fit is infinite.
abbrev pub bounded : Bool → ℕ → Double
bounded s n = if ltb n limit then value s n else infinity s

abbrev pub of_ratio : Bool → ℕ → ℕ → Double
of_ratio s n d = bounded s (round n d)

abbrev pub of_decimal : Decimal → Double
of_decimal (finite s c (pos k)) = of_ratio s (c * 10 ^ k * one) 1
of_decimal (finite s c (negsuc k)) = of_ratio s (c * one) (10 ^ suc k)
of_decimal (infinite s) = infinity s
of_decimal not_a_number = nan

abbrev of_int : ℤ → Double
of_int (pos n) = of_ratio false (n * one) 1
of_int (negsuc n) = of_ratio true (suc n * one) 1

abbrev differ : Bool → Bool → Bool
differ true t = not t
differ false t = t

-- The exact difference of two numbers of these signs, rounded.
abbrev pub difference : Bool → ℕ → Bool → ℕ → Double
difference s n t m =
    if differ s t
    then of_ratio s (n + m) 1
    else if leb m n
    then of_ratio s (n - m) 1
    else of_ratio (not s) (m - n) 1

abbrev pub sub : Double → Double → Double
sub (value s n) (value t m) = difference s n t m
sub (infinity s) (infinity t) = if differ s t then infinity s else nan
sub (infinity s) (value t m) = infinity s
sub (value s n) (infinity t) = infinity (not t)
sub nan y = nan
sub x nan = nan

abbrev mul : Double → Double → Double
mul (value s n) (value t m) = of_ratio (differ s t) (n * m) one
mul (infinity s) (infinity t) = infinity (differ s t)
mul (infinity s) (value t zero) = nan
mul (infinity s) (value t (suc m)) = infinity (differ s t)
mul (value s zero) (infinity t) = nan
mul (value s (suc n)) (infinity t) = infinity (differ s t)
mul nan y = nan
mul x nan = nan

-- A division by zero raises in Python; the service makes none.
abbrev div : Double → Double → Double
div (value s n) (value t zero) = nan
div (value s n) (value t (suc m)) = of_ratio (differ s t) (n * one) (suc m)
div (value s n) (infinity t) = value (differ s t) 0
div (infinity s) (value t m) = infinity (differ s t)
div (infinity s) (infinity t) = nan
div nan y = nan
div x nan = nan

abbrev pub abs : Double → Double
abs (value s n) = value false n
abs (infinity s) = infinity false
abs nan = nan

-- `round(x, 2)`: the hundredths nearest to the exact value, as a float.
abbrev round2 : Double → Double
round2 (value s n) = of_ratio s (nearest (n * 100) one 0) 100
round2 x = x

abbrev pub gt : Double → Double → Bool
gt (value false n) (value false m) = ltb m n
gt (value false n) (value true m) = not (eqb (n + m) 0)
gt (value true n) (value false m) = false
gt (value true n) (value true m) = ltb n m
gt (value s n) (infinity t) = t
gt (infinity s) (value t m) = not s
gt (infinity s) (infinity t) = not s && t
gt nan y = false
gt x nan = false

abbrev eq : Double → Double → Bool
eq (value s n) (value t m) = eqb n m && (not (differ s t) || eqb n 0)
eq (infinity s) (infinity t) = not (differ s t)
eq _ _ = false

abbrev pub tolerance : Double
tolerance = of_ratio false (5 * one) 1000

-- `of_text` reads a text and `to_text` is `repr`.
abbrev pub binary64 : (String → Option Double) → (Double → String) → Float
binary64 of_text to_text = record {
  F = Double;
  nan = nan;
  of_decimal = of_decimal;
  of_text = of_text;
  of_int = of_int;
  sub = sub;
  div = div;
  mul = mul;
  abs = abs;
  round2 = round2;
  gt = gt;
  eq = eq;
  tolerance = tolerance;
  to_text = to_text;
}
