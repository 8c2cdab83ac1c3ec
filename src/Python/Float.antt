-- ===== src/Python/Float.antt =====
-- Python's `float`, taken as an interface: the service's own code fixes none of the bits, and no law
-- of them is assumed. Binary64 are the doubles of IEEE 754, and Sample a stand-in that runs fast.
pub mod Sample
pub mod Binary64
use global_payments_api.Prelude.{ℤ, String, Bool, Option}
use global_payments_api.Python.Decimal.{Decimal}

pub record Float : Type 1 where
  pub F : Type 0
  pub nan : F
  pub of_decimal : Decimal → F  -- `float(d)`
  pub of_text : String → Option F  -- `float(s)`, or a ValueError
  pub of_int : ℤ → F  -- `float(n)`
  pub sub : F → F → F
  pub div : F → F → F
  pub mul : F → F → F
  pub abs : F → F
  pub round2 : F → F  -- `round(x, 2)`
  pub gt : F → F → Bool
  pub eq : F → F → Bool
  pub tolerance : F  -- the literal 0.005
  pub to_text : F → String  -- `str(x)`
