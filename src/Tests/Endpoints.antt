-- ===== src/Tests/Endpoints.antt =====
-- The endpoints and the choice of the configuration, at concrete requests.
use global_payments_api.Prelude.{ℕ, pos, String, ◌≡◌, refl, Bool, true, List, [], ◌∷◌, none, some}
use global_payments_api.Python.Raised.{Raised, Result, ok, err, value_error}
use global_payments_api.Python.Date.{Date}
use global_payments_api.Python.Float.Sample.{Millionths, sample_float}
use global_payments_api.Models.{ReconciliationRun}
use global_payments_api.Services.Memory.{memory, memory-IsSession}
use global_payments_api.Routes.Trigger.{
  object, no_date, target, trigger_reconciliation, Told, trigger_reconciliation-Told,
}
use global_payments_api.Routes.Reports.{Calendar, Report, summary, IsReport, summary-IsReport}
use global_payments_api.Routes.Runs.{Shows, get_run-run_daily_reconciliation}
use global_payments_api.Run.{run_id_of, run_daily_reconciliation}
use global_payments_api.Tests.{panda, stamp_text}
use global_payments_api.Tests.Runs.{day, ids, to_csv, no_tables, ready}

abbrev not_iso : Raised
not_iso = record { kind = value_error; text = "Invalid isoformat string" }

-- Texts of which none is a date.
abbrev from_iso : String → Result Date
from_iso s = err not_iso

trigger_reconciliation-Told_example :
    Told sample_float panda stamp_text memory ids to_csv "bucket" from_iso day
      (target from_iso (object no_date))
      no_tables
      ready
      (trigger_reconciliation sample_float panda stamp_text memory ids to_csv "bucket" from_iso day
        (object no_date)
        ready)
trigger_reconciliation-Told_example =
    trigger_reconciliation-Told sample_float panda stamp_text memory ids to_csv "bucket" from_iso
      day memory-IsSession (object no_date) ready refl

-- Days of March 2024 only.
abbrev calendar : Calendar
calendar = record {
  from_iso = from_iso;
  ordinal = λ d. d.day;
  back = λ d n. ok (record d { day = 1 });
  today = day;
}

abbrev completed : ReconciliationRun Millionths
completed = record {
  id = "RECON-20240315";
  run_date = day;
  started_at = some 6;
  completed_at = some 7;
  total_records = 6;
  matched_count = 3;
  unmatched_count = 2;
  exception_count = 1;
  total_amount_gbp = some (pos 0);
  status = "COMPLETED";
  error_message = none;
}

abbrev amount_text : List Millionths → String
amount_text xs = "0"

abbrev nonzero : Millionths → Bool
nonzero x = true

summarised :
    (report : Report Millionths) × (summary sample_float calendar amount_text nonzero none none
        (completed ∷ [])
      ≡ ok report)
unfolding summary
summarised = (_, refl)

summary-IsReport_example :
    IsReport sample_float calendar amount_text nonzero (completed ∷ []) (summarised.0)
summary-IsReport_example =
    summary-IsReport sample_float calendar amount_text nonzero none none (completed ∷ [])
      (summarised.0) (λ h. refl, tt) (summarised.1)

abbrev select_1 : ℕ → Result (Unit {0}) × ℕ
select_1 w = (ok tt, w)

abbrev pub date_text : Date → String
date_text d = "2024-03-15T00:00:00+00:00"

abbrev pub one_amount : Millionths → String
one_amount x = "0"

get_run-run_daily_reconciliation_example :
    Shows sample_float date_text stamp_text one_amount memory
      (run_id_of day)
      (run_daily_reconciliation sample_float panda stamp_text memory ids to_csv "bucket" day ready)
get_run-run_daily_reconciliation_example =
    get_run-run_daily_reconciliation sample_float date_text stamp_text one_amount panda stamp_text
      memory memory-IsSession ids to_csv "bucket" day ready refl
