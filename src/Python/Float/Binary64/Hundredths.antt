-- ===== src/Python/Float/Binary64/Hundredths.antt =====
-- Amounts with two digits behind the point as binary floats: their differences tell them apart.
use native.Mathlib.Nat.{mul_right_comm, one-le-pow}
use global_payments_api.Prelude.{
  ℕ, suc, ◌+◌, ◌-◌, ◌*◌, ◌^◌, ◌≤◌, ◌<◌, ◌≡◌, ap, ◌∙◌, Bool, true, false, not, Bool-cases, inl, inr,
  arith, ltb, leb, eqb, pos, negsuc,
}
use global_payments_api.Python.Decimal.{Decimal, finite, infinite, not_a_number}
use global_payments_api.Python.Decimal.Hundredths.{IsHundredths}
use global_payments_api.Python.Float.Binary64.{
  Double, value, one, limit, round, bounded, of_ratio, of_decimal, sub, abs, gt, tolerance,
}
use global_payments_api.Python.Float.Binary64.Rounding.{Within, round-Within, hundredths-Within}

-- The most that the theorems speak about: 10^14 hundredths.
abbrev pub most : ℕ
most = 100000000000000

-- A quarter of the gap between floats below 2^40.
abbrev gap : ℕ
gap = 2 ^ 1060

record IsNear (x : Double) (p : ℕ) : Type 0 where
  units : ℕ
  is_value : x ≡ value false units
  near : Within (100 * gap) (100 * units) (p * one)

scaled : (n m p t : ℕ) → n * 100 ≡ p * t → n * m * 100 ≡ p * m * t
scaled n m p t h = mul_right_comm n m 100 ∙ ap (λ x. x * m) h ∙ mul_right_comm p t m

bounded-value : (s : Bool) (n : ℕ) → n < limit → bounded s n ≡ value s n
bounded-value s n h = ground arith

of_ratio-IsNear :
    (n d p : ℕ) → 1 ≤ d → n * 100 ≡ p * one * d → p ≤ most → IsNear (of_ratio false n d) p
of_ratio-IsNear n d p h e small =
    let w = hundredths-Within n d p one 1060 h e (omega arith) in
    record {
      units = round n d;
      is_value = bounded-value false (round n d) (omega (arith, w.above));
      near = w;
    }

of_decimal-IsNear : (d : Decimal) (p : ℕ) → IsHundredths d p → p ≤ most → IsNear (of_decimal d) p
of_decimal-IsNear (finite false c (pos k)) p h small =
    of_ratio-IsNear (c * 10 ^ k * one) 1 p (omega arith)
      (scaled (c * 10 ^ k) one p 1 (omega (arith, h))) small
of_decimal-IsNear (finite false c (negsuc k)) p h small =
    of_ratio-IsNear (c * one) (10 ^ suc k) p (one-le-pow (suc k) 10 (omega arith))
      (scaled c one p (10 ^ suc k) h) small
of_decimal-IsNear (finite true c _) p h small = elim h [ ]
of_decimal-IsNear (infinite _) p h small = elim h [ ]
of_decimal-IsNear not_a_number p h small = elim h [ ]

-- The distance of two numbers.
abbrev apart : ℕ → ℕ → ℕ
apart x y = x - y + (y - x)

rounded-apart :
    (x y p q : ℕ)
    → Within (100 * gap) (100 * x) (p * one)
    → Within (100 * gap) (100 * y) (q * one)
    → p ≤ most
    → q ≤ most
    → Within (2 * gap) (2 * round (apart x y) 1) (2 * apart x y)
rounded-apart x y p q v w h k =
    let r =
      round-Within (apart x y) 1 1061 (omega arith)
        (omega (arith, v.above, w.above, v.below, w.below)) in
    record { above = omega (arith, r.above); below = omega (arith, r.below) }

abs-bounded : (s : Bool) (n m : ℕ) → n ≡ m → m < limit → abs (bounded s n) ≡ value false m
abs-bounded s n m e h = ap abs (ap (bounded s) e ∙ bounded-value s m h)

abs-sub :
    (x y : ℕ)
    → round (apart x y) 1 < limit
    → abs (sub (value false x) (value false y)) ≡ value false (round (apart x y) 1)
abs-sub x y h = elim (Bool-cases (leb y x)) [
  | inl e ↦
      let same : x - y ≡ apart x y = ground arith in
      rw e (abs-bounded false _ _ (ap (λ d. round d 1) same) h)
  | inr e ↦
      let same : y - x ≡ apart x y = ground arith in
      rw e (abs-bounded true _ _ (ap (λ d. round d 1) same) h)
]

abbrev half_penny : ℕ
half_penny = round (5 * one) 1000

half_penny-Within : Within (2 ^ 1014 * 1000) (2 * (half_penny * 1000)) (2 * (5 * one))
half_penny-Within =
    let w = round-Within (5 * one) 1000 1014 (omega arith) (omega arith) in
    record { above = omega (arith, w.above); below = omega (arith, w.below) }

tolerance-value : tolerance ≡ value false half_penny
tolerance-value = bounded-value false half_penny (omega (arith, half_penny-Within.above))

-- Whether the distance of two floats near to `p` and `q` hundredths is above the tolerance.
over :
    (r x y p q : ℕ)
    → Within (100 * gap) (100 * x) (p * one)
    → Within (100 * gap) (100 * y) (q * one)
    → Within (2 * gap) (2 * r) (2 * apart x y)
    → ltb half_penny r ≡ not (eqb p q)
over r x y p q v w u = ground (
  arith, half_penny-Within.below, half_penny-Within.above, v.above, w.above, v.below, w.below,
  u.above, u.below,
)

-- In binary floats, amounts of at most 10^14 hundredths differ by more than the tolerance exactly
-- when they are not the same.
pub gt-abs-sub :
    (a b : Decimal) (p q : ℕ)
    → IsHundredths a p
    → IsHundredths b q
    → p ≤ most
    → q ≤ most
    → gt (abs (sub (of_decimal a) (of_decimal b))) tolerance ≡ not (eqb p q)
gt-abs-sub a b p q h k small small' =
    let v = of_decimal-IsNear a p h small in
    let w = of_decimal-IsNear b q k small' in
    let r = rounded-apart v.units w.units p q v.near w.near small small' in
    ap (λ d. gt (abs d) tolerance)
      (ap (λ d. sub d (of_decimal b)) v.is_value ∙ ap (sub (value false v.units)) w.is_value)
    ∙ ap (λ d. gt d tolerance)
        (abs-sub v.units w.units (omega (arith, r.above, v.near.above, w.near.above)))
    ∙ ap (gt (value false _)) tolerance-value
    ∙ over _ v.units w.units p q v.near w.near r
