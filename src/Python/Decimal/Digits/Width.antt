-- ===== src/Python/Decimal/Digits/Width.antt =====
-- How many characters the text of a number has.
use Prim.Native.String.{count}
use text.Mathlib.TextLemmas.{length-append}
use native.Mathlib.Nat.{pow-succ'}
use global_payments_api.Prelude.{
  true, ℕ, zero, suc, ◌/◌, ◌%◌, ◌^◌, ◌≤◌, ◌<◌, ◌≡◌, ltb, ltb→lt, arith, Bool-cases, inl, inr,
}
use global_payments_api.Python.Decimal.{digit, show_fuel, show}
use global_payments_api.Python.Decimal.Digits.{digit-IsRead}

count-digit : (d : ℕ) → d < 10 → count (digit d) ≡ 1
count-digit d h = (digit-IsRead d h).short

count-show_fuel : (f n k : ℕ) → n < 10 ^ suc k → count (show_fuel f n) ≤ suc k
unfolding show_fuel
count-show_fuel zero n k h = omega arith
count-show_fuel (suc f) n zero h = rw (below_ten n h) (omega (arith, count-digit n h))
  where
    below_ten : (n : ℕ) → n < 10 ^ 1 → ltb n 10 ≡ true
    below_ten n h = ground arith
count-show_fuel (suc f) n (suc k) h =
    let shorter = count-show_fuel f (n / 10) k (omega (arith, pow-succ' 10 (suc k))) in
    elim (Bool-cases (ltb n 10)) [
      | inl e ↦ rw e (omega (arith, count-digit n (ltb→lt n 10 e)))
      | inr e ↦ rw e (
          omega (
            arith,
            length-append (show_fuel f (n / 10)) (digit (n % 10)),
            count-digit (n % 10) (omega arith),
            shorter,
          ))
    ]

-- A number below `10 ^ suc k` has at most `suc k` digits.
pub count-show : (n k : ℕ) → n < 10 ^ suc k → count (show n) ≤ suc k
unfolding show
count-show n k h = count-show_fuel (suc n) n k h
