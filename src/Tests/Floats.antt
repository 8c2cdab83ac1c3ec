-- ===== src/Tests/Floats.antt =====
-- Binary floats at known numbers, and the verdict that they give on whole pence.
use global_payments_api.Prelude.{
  ℕ, ◌*◌, ◌^◌, pos, negsuc, String, ◌≡◌, refl, ◌↔◌, Bool, true, false, [], ◌∷◌, none, arith,
}
use global_payments_api.Python.Raised.{ok}
use global_payments_api.Python.Decimal.{finite, of_minor_units}
use global_payments_api.Python.Float.Binary64.{
  Double, value, nan, infinity, of_decimal, round, sub, binary64,
}
use global_payments_api.Frame.{Row, text, decimal, get}
use global_payments_api.Pandas.{Pandas}
use global_payments_api.Pandas.Sample.{sample_pandas}
use global_payments_api.Reconcile.{classify_record}
use global_payments_api.Reconcile.Pence.{classify-same_pence_iff}
use global_payments_api.Tests.{stamp_text}

-- 0.1 is 3602879701896397 · 2^-55.
tenth : of_decimal (finite false 1 (negsuc 0)) ≡ value false (3602879701896397 * 2 ^ 1019)
unfolding round
tenth = refl

-- 0.3 - 0.1 is 7205759403792793 · 2^-55, as Python has it, and not 0.2.
two_tenths :
    sub (of_decimal (finite false 3 (negsuc 0))) (of_decimal (finite false 1 (negsuc 0)))
    ≡ value false (7205759403792793 * 2 ^ 1019)
unfolding round
two_tenths = refl

-- 1e309 is not finite.
large : of_decimal (finite false 1 (pos 309)) ≡ infinity false
unfolding round
large = refl

abbrev is_nan : Double → Bool
is_nan nan = true
is_nan _ = false

abbrev doubles : Pandas Double
doubles = sample_pandas nan is_nan refl (value false 0)

-- A payment of 250.50 beside a clearing record of 250.51.
abbrev a_penny_off : Row Double
a_penny_off =
    ("clearing_reference", text "NET-1")
    ∷ ("internal_amount", decimal (finite false 2505 (negsuc 0)))
    ∷ ("internal_currency", text "GBP")
    ∷ ("clearing_amount", decimal (finite false 25051 (negsuc 1)))
    ∷ ("clearing_currency", text "GBP")
    ∷ []

classify-same_pence_iff_example :
    (classify_record (binary64 (λ s. none) (λ x. "float")) doubles stamp_text a_penny_off
      ≡ ok "MATCHED")
    ↔ ((◌≡◌ {A = ℕ} 25050 25051) × (◌≡◌ {A = String} "GBP" "GBP"))
unfolding get of_minor_units
classify-same_pence_iff_example =
    classify-same_pence_iff (λ s. none) (λ x. "float") doubles stamp_text a_penny_off 25050 25051
      (finite false 25051 (negsuc 1)) "GBP" "GBP" refl refl refl refl (omega arith) (omega arith)
      refl refl
