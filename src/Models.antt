-- ===== src/Models.antt =====
-- The tables of the reporting database: data-processing-service/app/models/reconciliation.py.
use global_payments_api.Prelude.{ℕ, zero, suc, pos, String, ◌==◌, Bool, Option, if◌then◌else◌}
use global_payments_api.Python.Date.{Date}
use global_payments_api.Python.Float.{Float}
use global_payments_api.Python.Raised.{Result, ok, err, value_error}
use global_payments_api.Frame.{Cell}

pub data ReconciliationStatus : Type 0 where
  matched unmatched exception : ReconciliationStatus

-- `status.value`
abbrev pub value : ReconciliationStatus → String
value matched = "MATCHED"
value unmatched = "UNMATCHED"
value exception = "EXCEPTION"

-- `ReconciliationStatus(v)`
unfoldable pub status_of : String → Result ReconciliationStatus
status_of v =
    if v == "MATCHED"
    then ok matched
    else if v == "UNMATCHED"
    then ok unmatched
    else if v == "EXCEPTION"
    then ok exception
    else err (record { kind = value_error; text = v })

-- One row per payment of a run. The columns that come from a table of the job hold its cells; the
-- identifier and `reconciled_at` are drawn from outside.
pub record ReconciliationRecord (F : Type 0) : Type 0 where
  pub id : ℕ
  pub payment_reference : Cell F
  pub payment_id : Cell F
  pub internal_amount : Cell F
  pub internal_currency : Cell F
  pub internal_status : Cell F
  pub internal_created_at : Cell F
  pub clearing_amount : Cell F
  pub clearing_currency : Cell F
  pub clearing_reference : Cell F
  pub clearing_status : Cell F
  pub clearing_settled_at : Cell F
  pub status : ReconciliationStatus
  pub discrepancy_amount : Cell F
  pub notes : Cell F
  pub reconciliation_run_id : String
  pub requires_investigation : Bool

-- One row per execution of the batch.
pub record ReconciliationRun (F : Type 0) : Type 0 where
  pub id : String
  pub run_date : Date
  pub started_at : Option ℕ
  pub completed_at : Option ℕ
  pub total_records : ℕ
  pub matched_count : ℕ
  pub unmatched_count : ℕ
  pub exception_count : ℕ
  pub total_amount_gbp : F
  pub status : String
  pub error_message : Option String

module _ (fl : Float) where
  -- `ReconciliationRun.match_rate`, of the two counters that it reads
  unfoldable pub match_rate : ℕ → ℕ → fl.F
  match_rate matched_count zero = fl.of_int (pos 0)
  match_rate matched_count (suc n) = fl.round2 (
      fl.mul (fl.div (fl.of_int (pos matched_count)) (fl.of_int (pos (suc n))))
        (fl.of_int (pos 100)))
