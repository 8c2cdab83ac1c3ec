-- ===== src/Reconcile/Cells.antt =====
-- Python's own operations on the cells of a table: `float(x)`, `x == y`, `str(x)`.
use global_payments_api.Prelude.{
  ℕ, ℤ, pos, negsuc, suc, String, ◌==◌, ◌<>◌, Bool, true, false, Option, none, some,
}
use global_payments_api.Python.Raised.{Result, ok, err, type_error, value_error}
use global_payments_api.Python.Decimal.{decimal_text, show}
use global_payments_api.Python.Float.{Float}
use global_payments_api.Frame.{Cell, null, text, integer, decimal, number, flag, stamp, not_a_time}

abbrev bool_ℤ : Bool → ℤ
bool_ℤ true = pos 1
bool_ℤ false = pos 0

module _ (fl : Float) where
  open fl use {F, of_decimal, of_text, of_int, eq, to_text}

  abbrev pub or_value_error : String → Option F → Result F
  or_value_error s none =
      err (record { kind = value_error; text = "could not convert string to float: " <> s })
  or_value_error s (some x) = ok x

  -- `float(x)`
  unfoldable pub to_float : Cell F → Result F
  to_float null = err (record {
    kind = type_error;
    text = "float() argument must be a string or a real number, not 'NoneType'";
  })
  to_float (text s) = or_value_error s (of_text s)
  to_float (integer n) = ok (of_int n)
  to_float (decimal d) = ok (of_decimal d)
  to_float (number x) = ok x
  to_float (flag b) = ok (of_int (bool_ℤ b))
  to_float (stamp t) = err (record {
    kind = type_error;
    text = "float() argument must be a string or a real number, not 'Timestamp'";
  })
  to_float not_a_time = err (record {
    kind = type_error;
    text = "float() argument must be a string or a real number, not 'NaTType'";
  })

  -- `x == y` of two texts, of None, or of two floats. Cells of other kinds, or of two kinds, are
  -- taken as different: no column that is compared holds them.
  unfoldable pub equal_cells : Cell F → Cell F → Bool
  equal_cells null null = true
  equal_cells (text s) (text t) = s == t
  equal_cells (number x) (number y) = eq x y
  equal_cells _ _ = false

  abbrev int_text : ℤ → String
  int_text (pos n) = show n
  int_text (negsuc n) = "-" <> show (suc n)

  abbrev bool_text : Bool → String
  bool_text true = "True"
  bool_text false = "False"

  -- `str(x)`, where `stamp_text` is that of a timestamp
  unfoldable pub cell_text : (ℕ → String) → Cell F → String
  unfolding decimal_text show
  cell_text stamp_text null = "None"
  cell_text stamp_text (text s) = s
  cell_text stamp_text (integer n) = int_text n
  cell_text stamp_text (decimal d) = decimal_text d
  cell_text stamp_text (number x) = to_text x
  cell_text stamp_text (flag b) = bool_text b
  cell_text stamp_text (stamp t) = stamp_text t
  cell_text stamp_text not_a_time = "NaT"
