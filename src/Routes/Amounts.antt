-- ===== src/Routes/Amounts.antt =====
-- `str(x) if x else None`, as the endpoints of data-processing-service/app/routes serialise amounts.
use global_payments_api.Prelude.{ℕ, pos, String, Bool, not, Option, none, some, if◌then◌else◌}
use global_payments_api.Python.Float.{Float}
use global_payments_api.Frame.{Cell, number}
use global_payments_api.Reconcile.Cells.{cell_text}
use global_payments_api.Persist.{truth}

module _ (fl : Float) (stamp_text : ℕ → String) where
  open fl use {F}

  -- Whether an amount counts as true: zero does not.
  abbrev pub is_true_amount : Cell F → Bool
  is_true_amount (number x) = not (fl.eq x (fl.of_int (pos 0)))
  is_true_amount x = truth x

  abbrev pub text_if : Cell F → Option String
  text_if x = if is_true_amount x then some (cell_text fl stamp_text x) else none
