-- ===== src/Python/Decimal.antt =====
-- `decimal.Decimal` as Python keeps it: a sign, a coefficient and an exponent of ten; and the
-- conversions that the reconciliation service makes.
pub mod Parse
pub mod Digits
pub mod Hundredths
use Prim.Native.Char.{code}
use Prim.Native.Nat.{compare, Ordering}
use global_payments_api.Prelude.{
  ℕ, zero, suc, ◌+◌, ◌-◌, ◌*◌, ◌/◌, ◌%◌, ◌^◌, String, ◌<>◌, Bool, true, false, ◌&&◌, ◌||◌, ltb, leb,
  eqb, if◌then◌else◌, ℤ, pos, negsuc, magnitude,
}

pub data Decimal : Type 0 where
  -- `finite negative c e` is c · 10^e, with its sign
  finite : Bool → ℕ → ℤ → Decimal
  infinite : Bool → Decimal
  not_a_number : Decimal

abbrev is_negative : ℤ → Bool
is_negative (pos n) = false
is_negative (negsuc n) = true

-- The quotient by 100 of a number that has at most 28 digits: exact, and with an exponent as near
-- to 0 as an exact result allows.
hundredth : Bool → ℕ → Decimal
hundredth s n =
    if eqb (n % 100) 0
    then finite s (n / 100) (pos 0)
    else if eqb (n % 10) 0
    then finite s (n / 10) (negsuc 0)
    else finite s n (negsuc 1)

-- `Decimal(str(x)) / 100`
unfoldable pub of_minor_units : ℤ → Decimal
unfolding hundredth
of_minor_units x = hundredth (is_negative x) (magnitude x)

digit : ℕ → String
digit d =
    if eqb d 0
    then "0"
    else if eqb d 1
    then "1"
    else if eqb d 2
    then "2"
    else if eqb d 3
    then "3"
    else if eqb d 4
    then "4"
    else if eqb d 5
    then "5"
    else if eqb d 6
    then "6"
    else if eqb d 7
    then "7"
    else if eqb d 8
    then "8"
    else "9"

-- The decimal digits of a number, given more fuel than the number has digits.
show_fuel : ℕ → ℕ → String
show_fuel zero n = ""
show_fuel (suc f) n =
    let rest = show_fuel f (n / 10) in if ltb n 10 then digit n else rest <> digit (n % 10)

-- `str(n)` of an integer that is not negative
unfoldable pub show : ℕ → String
unfolding show_fuel digit
show n = show_fuel (suc n) n

-- The last `k` digits of a number.
unfoldable pub pad : ℕ → ℕ → String
unfolding digit
pad zero n = ""
pad (suc k) n = pad k (n / 10) <> digit (n % 10)

sign_text : Bool → String
sign_text true = "-"
sign_text false = ""

-- How many digits a number has, given enough fuel.
width_fuel : ℕ → ℕ → ℕ
width_fuel zero n = 1
width_fuel (suc f) n = let rest = width_fuel f (n / 10) in if ltb n 10 then 1 else suc rest

-- The coefficient with a point before its last `k` digits, or in scientific notation where
-- the first digit is more than five places behind the point.
point_text : ℕ → ℕ → String
point_text c k =
    let w = width_fuel (suc c) c in
    if ltb k w
    then show (c / 10 ^ k) <> "." <> pad k c
    else if ltb k (w + 6)
    then "0." <> pad k c
    else if eqb w 1
    then show c <> "E-" <> show k
    else show (c / 10 ^ (w - 1)) <> "." <> pad (w - 1) c <> "E-" <> show (k - (w - 1))

-- ... and where the exponent is above 0.
raised_text : ℕ → ℕ → String
raised_text c k =
    let w = width_fuel (suc c) c in
    if eqb w 1
    then show c <> "E+" <> show k
    else show (c / 10 ^ (w - 1)) <> "." <> pad (w - 1) c <> "E+" <> show (k + (w - 1))

finite_text : ℕ → ℤ → String
finite_text c (pos zero) = show c
finite_text c (pos (suc k)) = raised_text c (suc k)
finite_text c (negsuc k) = point_text c (suc k)

-- `str(d)`
unfoldable pub decimal_text : Decimal → String
unfolding show pad sign_text width_fuel point_text raised_text finite_text
decimal_text (finite s c e) = sign_text s <> finite_text c e
decimal_text (infinite s) = sign_text s <> "Infinity"
decimal_text not_a_number = "NaN"

-- `bool(d)`: a zero is false.
unfoldable pub is_true : Decimal → Bool
is_true (finite s zero e) = false
is_true _ = true
