-- ===== src/Python/Decimal/Hundredths.antt =====
-- Decimals that are a number of hundredths, such as amounts in pounds; the quotient by 100 is one.
use global_payments_api.Prelude.{
  ℤ, magnitude, ◌<◌, Bool, ℕ, suc, ◌*◌, ◌%◌, ◌^◌, ◌≡◌, false, Bool-cases, inl, inr, arith, eqb, pos,
  negsuc,
}
use global_payments_api.Python.Decimal.{Decimal, finite, hundredth, of_minor_units}

-- The decimal is so many hundredths.
abbrev pub IsHundredths : Decimal → ℕ → Type 0
IsHundredths (finite false c (pos k)) p = c * 10 ^ k * 100 ≡ p
IsHundredths (finite false c (negsuc k)) p = c * 100 ≡ p * 10 ^ suc k
IsHundredths _ p = ⊥

pub of_minor_units-IsHundredths : (n : ℕ) → IsHundredths (of_minor_units (pos n)) n
unfolding of_minor_units hundredth
of_minor_units-IsHundredths n = elim (Bool-cases (eqb (n % 100) 0)) [
  | inl e ↦ rw e (ground arith)
  | inr e ↦ elim (Bool-cases (eqb (n % 10) 0)) [
    | inl q ↦ rw (e, q) (ground arith)
    | inr q ↦ rw (e, q) (omega arith)
  ]
]

-- The number, without its sign, is below `10 ^ k`.
abbrev pub IsBelow : ℕ → Decimal → Type 0
IsBelow k (finite s c (pos e)) = c * 10 ^ e < 10 ^ k
IsBelow k (finite s c (negsuc e)) = c < 10 ^ k * 10 ^ suc e
IsBelow k _ = ⊥

hundredth-IsBelow : (s : Bool) (n : ℕ) → n < 10 ^ 18 → IsBelow 16 (hundredth s n)
unfolding hundredth
hundredth-IsBelow s n h = elim (Bool-cases (eqb (n % 100) 0)) [
  | inl e ↦ rw e (omega arith)
  | inr e ↦ elim (Bool-cases (eqb (n % 10) 0)) [
    | inl q ↦ rw (e, q) (omega arith)
    | inr q ↦ rw (e, q) (omega arith)
  ]
]

pub of_minor_units-IsBelow : (x : ℤ) → magnitude x < 10 ^ 18 → IsBelow 16 (of_minor_units x)
unfolding of_minor_units
of_minor_units-IsBelow x h = hundredth-IsBelow _ (magnitude x) h
