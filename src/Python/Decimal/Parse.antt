-- ===== src/Python/Decimal/Parse.antt =====
-- `Decimal(s)` of a text: blanks at both ends and underscores dropped; a sign; digits with a point
-- and an exponent, an infinity or a NaN. Digits and blanks are the ASCII ones, a signalling NaN
-- is read as a quiet one, and a NaN that carries digits is refused.
use Prim.Native.Char.{code}
use mathlib.Core.List.{reverse}
use global_payments_api.Prelude.{
  ℕ, ◌+◌, ◌-◌, ◌*◌, String, Bool, true, false, ◌&&◌, ◌||◌, List, [], ◌∷◌, ◌++◌, leb, eqb, select,
  not, length, if◌then◌else◌, ℤ, pos, negsuc,
}
use global_payments_api.Python.Raised.{Result, ok, err, invalid_operation}
use global_payments_api.Python.Decimal.{Decimal, finite, infinite, not_a_number}

abbrev pub codes : String → List ℕ
codes String.[] = []
codes (String.◌∷◌ c s) = code c ∷ codes s

is_blank : ℕ → Bool
is_blank c = eqb c 32 || (leb 9 c && leb c 13) || (leb 28 c && leb c 31)

drop_blanks : List ℕ → List ℕ
drop_blanks [] = []
drop_blanks (c ∷ cs) = let rest = drop_blanks cs in if is_blank c then rest else c ∷ cs

-- `s.strip()`
strip : List ℕ → List ℕ
unfolding drop_blanks is_blank
strip cs = reverse (drop_blanks (reverse (drop_blanks cs)))

is_digit : ℕ → Bool
is_digit c = leb 48 c && leb c 57

lower : ℕ → ℕ
lower c = if leb 65 c && leb c 90 then c + 32 else c

-- The leading digits, as numbers, and what is behind them.
span_digits : List ℕ → List ℕ × List ℕ
span_digits [] = ([], [])
span_digits (c ∷ cs) =
    let rest = span_digits cs in if is_digit c then ((c - 48) ∷ rest.0, rest.1) else ([], c ∷ cs)

number_of : ℕ → List ℕ → ℕ
number_of acc [] = acc
number_of acc (d ∷ ds) = number_of (acc * 10 + d) ds

same_codes : List ℕ → List ℕ → Bool
same_codes [] [] = true
same_codes (a ∷ as') (b ∷ bs) = eqb a b && same_codes as' bs
same_codes _ _ = false

-- A number less a number, as an integer.
minus : ℕ → ℕ → ℤ
minus a b = if leb b a then pos (a - b) else negsuc (b - a - 1)

no_codes : List ℕ → Bool
no_codes [] = true
no_codes (c ∷ cs) = false

invalid : Result Decimal
invalid = err (record { kind = invalid_operation; text = "[<class 'decimal.ConversionSyntax'>]" })

-- The digits of an exponent, up to the end; the number has `fraction` digits behind its point.
exponent : Bool → ℕ → ℕ → Bool → List ℕ → Result Decimal
exponent negative coefficient fraction down cs =
    let (ds, rest) = span_digits cs in
    let e = number_of 0 ds in
    if no_codes ds || not (no_codes rest)
    then invalid
    else ok
        (finite negative coefficient (if down then minus 0 (e + fraction) else minus e fraction))

-- What is behind the digits: nothing, or `e` and an exponent with its sign.
after_digits : Bool → ℕ → ℕ → List ℕ → Result Decimal
after_digits negative coefficient fraction [] = ok (finite negative coefficient (minus 0 fraction))
after_digits negative coefficient fraction (c ∷ []) = invalid
after_digits negative coefficient fraction (c ∷ s ∷ cs) =
    if eqb (lower c) 101
    then (if eqb s 45
        then exponent negative coefficient fraction true cs
        else if eqb s 43
        then exponent negative coefficient fraction false cs
        else exponent negative coefficient fraction false (s ∷ cs))
    else invalid

with_digits : Bool → List ℕ → List ℕ → List ℕ → Result Decimal
with_digits negative int_digits fraction_digits rest =
    if no_codes (int_digits ++ fraction_digits)
    then invalid
    else after_digits negative (number_of 0 (int_digits ++ fraction_digits))
        (length fraction_digits) rest

-- Behind the digits before the point.
after_int : Bool → List ℕ → List ℕ → Result Decimal
after_int negative int_digits [] = with_digits negative int_digits [] []
after_int negative int_digits (c ∷ cs) =
    let (fraction_digits, rest) = span_digits cs in
    if eqb c 46
    then with_digits negative int_digits fraction_digits rest
    else with_digits negative int_digits [] (c ∷ cs)

lower_all : List ℕ → List ℕ
lower_all [] = []
lower_all (c ∷ cs) = lower c ∷ lower_all cs

-- A word or a number, behind the sign.
unsigned : Bool → List ℕ → Result Decimal
unsigned negative cs =
    let word = lower_all cs in
    let (int_digits, rest) = span_digits cs in
    if same_codes word (codes "inf") || same_codes word (codes "infinity")
    then ok (infinite negative)
    else if same_codes word (codes "nan") || same_codes word (codes "snan")
    then ok not_a_number
    else after_int negative int_digits rest

signed : List ℕ → Result Decimal
signed [] = invalid
signed (c ∷ cs) =
    if eqb c 45
    then unsigned true cs
    else if eqb c 43
    then unsigned false cs
    else unsigned false (c ∷ cs)

-- `Decimal(s)`
unfoldable pub decimal_of : String → Result Decimal
unfolding strip is_digit lower span_digits number_of same_codes minus no_codes invalid exponent
    after_digits with_digits after_int lower_all unsigned signed
decimal_of s = signed (select (λ c. not (eqb c 95)) (strip (codes s)))
