-- ===== src/Tests/Runs.antt =====
-- Runs of the whole job, on services in memory.
use global_payments_api.Prelude.{ℕ, pos, String, ◌≡◌, refl, ◌∙◌, arith, false, [], ◌∷◌, none, some}
use global_payments_api.Python.Float.Sample.{Millionths, sample_float}
use global_payments_api.Python.Date.{Date}
use global_payments_api.Frame.{null, text, Frame, get, item}
use global_payments_api.Models.{ReconciliationRun, ReconciliationRecord, unmatched}
use global_payments_api.Services.{View, find_run}
use global_payments_api.Services.Memory.{
  Memory, memory, memory-IsSession, refusing, refusing-IsSession, bulk_save-refuses, commit-refuses,
}
use global_payments_api.Persist.{record_of, persist_results}
use global_payments_api.Persist.Outcome.{PersistOutcome}
use global_payments_api.Persist.Batches.{persist_results-PersistOutcome}
use global_payments_api.Persist.Bounds.{persist_results_keeps}
use global_payments_api.Run.{run_id_of, complete_run, handle, run_daily_reconciliation}
use global_payments_api.Run.Theorems.{IsOfDay, RunOutcome, run_daily_reconciliation-RunOutcome}
use global_payments_api.Run.Counts.{AddsUp, run_daily_reconciliation-AddsUp}
use global_payments_api.Run.Refused.{IsLost, refused_run_is_not_failed, second_run_raises}
use global_payments_api.Tests.{panda, panda-IsDocumented, stamp_text, payment}

abbrev pub day : Date
day = record { year = 2024; month = 3; day = 15 }

abbrev pub ids : ℕ → ℕ
ids n = n

abbrev pub to_csv : Frame Millionths → String
to_csv f = "csv"

abbrev pub no_tables : View Millionths
no_tables = record { runs = []; records = []; tracked = none; fresh = false; staged = [] }

-- Services with one payment and no clearing file.
abbrev pub ready : Memory Millionths
ready = record {
  tables = no_tables;
  broken = false;
  refuses = false;
  clock = 7;
  payments = payment ∷ [];
  file = none;
}

abbrev one_row : Frame Millionths
one_row = record {
  columns = "payment_reference" ∷ "status" ∷ [];
  rows = (("payment_reference", text "PAY-1") ∷ ("status", text "UNMATCHED") ∷ []) ∷ [];
}

persist_results-PersistOutcome_example :
    PersistOutcome memory "RECON-20240315" ids one_row.rows no_tables
      (persist_results memory ids one_row "RECON-20240315" ready)
persist_results-PersistOutcome_example =
    persist_results-PersistOutcome memory memory-IsSession ids one_row "RECON-20240315" ready
      (record { stored = refl; inserted = refl; nothing_staged = refl })

persist_results_keeps_example :
    (persist_results memory ids one_row "RECON-20240315" ready).1.refuses ≡ false
persist_results_keeps_example =
    persist_results_keeps memory (λ w. w.refuses ≡ false)
      (λ rs w small h. bulk_save-refuses rs w ∙ h) (λ w h. commit-refuses w ∙ h) ids one_row
      "RECON-20240315" ready refl

run_daily_reconciliation-RunOutcome_example :
    RunOutcome sample_float memory ids
      (IsOfDay sample_float panda stamp_text memory "bucket" day)
      (run_id_of day)
      no_tables
      (run_daily_reconciliation sample_float panda stamp_text memory ids to_csv "bucket" day ready)
run_daily_reconciliation-RunOutcome_example =
    run_daily_reconciliation-RunOutcome sample_float panda stamp_text memory memory-IsSession ids
      to_csv "bucket" day ready refl

run_daily_reconciliation-AddsUp_example :
    AddsUp
      (run_daily_reconciliation sample_float panda stamp_text memory ids to_csv "bucket" day ready)
run_daily_reconciliation-AddsUp_example =
    run_daily_reconciliation-AddsUp sample_float panda stamp_text panda-IsDocumented memory ids
      to_csv "bucket" day ready

abbrev pub running : ReconciliationRun Millionths
running = record {
  id = "RECON-20240315";
  run_date = day;
  started_at = some 6;
  completed_at = none;
  total_records = 0;
  matched_count = 0;
  unmatched_count = 0;
  exception_count = 0;
  total_amount_gbp = some (pos 0);
  status = "RUNNING";
  error_message = none;
}

abbrev pub rows_record : ReconciliationRecord Millionths
rows_record = record {
  id = 0;
  payment_reference = text "PAY-1";
  payment_id = null;
  internal_amount = null;
  internal_currency = null;
  internal_status = null;
  internal_created_at = null;
  clearing_amount = null;
  clearing_currency = null;
  clearing_reference = null;
  clearing_status = null;
  clearing_settled_at = null;
  status = unmatched;
  discrepancy_amount = null;
  notes = null;
  reconciliation_run_id = "RECON-20240315";
  requires_investigation = false;
}

refused_run_is_not_failed_example : IsLost refusing no_tables (
    handle sample_float panda stamp_text refusing ids to_csv "bucket" (
      complete_run sample_float panda stamp_text refusing ids to_csv "bucket" one_row day running
        (persist_results refusing ids one_row "RECON-20240315" ready)))
unfolding record_of get item
refused_run_is_not_failed_example =
    refused_run_is_not_failed sample_float panda stamp_text refusing refusing-IsSession ids to_csv
      "bucket" (λ rs w. tt) running one_row day (rows_record ∷ []) ready (refl, tt) (omega arith)

-- The tables after a first run.
abbrev again : Memory Millionths
again = record ready { tables = record no_tables { runs = running ∷ [] } }

second_run_raises_example :
    IsLost memory again.tables
      (run_daily_reconciliation sample_float panda stamp_text memory ids to_csv "bucket" day again)
unfolding find_run run_id_of
second_run_raises_example =
    second_run_raises sample_float panda stamp_text memory memory-IsSession ids to_csv "bucket" day
      again running refl

abbrev next_day : Date
next_day = record { year = 2024; month = 3; day = 16 }
