-- ===== src/Run.antt =====
-- `run_daily_reconciliation` and `_upload_report` of
-- data-processing-service/app/services/reconciliation_service.py: the run's row, the steps under
-- `try`, and the handler that marks the run as failed.
-- `ids` gives the records' identifiers and `to_csv` the text of the report.
pub mod Counts
pub mod Effects
pub mod Outcomes
pub mod Theorems
pub mod Refused
pub mod Flags
pub mod Stored
pub mod Others
pub mod Dates
pub mod Compared
pub mod Storable
pub mod Returns
pub mod Records
pub mod Additions
pub mod History
pub mod Stand
pub mod Coverage
use global_payments_api.Prelude.{
  ℕ, zero, suc, pos, String, ◌==◌, ◌<>◌, Bool, true, false, List, [], ◌∷◌, map, Option, none, some,
  length, count_if, if◌then◌else◌,
}
use global_payments_api.Python.Raised.{Raised, Result, ok, err, ◌>>=◌, Exec}
use global_payments_api.Python.Decimal.{show}
use global_payments_api.Python.Float.{Float}
use global_payments_api.Python.Date.{Date, compact, slashed, iso}
use global_payments_api.Frame.{Cell, text, Frame}
use global_payments_api.Pandas.{Pandas}
use global_payments_api.Models.{ReconciliationRun, match_rate}
use global_payments_api.Services.{Services, stored_or, find_run}
use global_payments_api.Reconcile.{reconcile}
use global_payments_api.Reconcile.Cells.{to_float, equal_cells}
use global_payments_api.Loading.{column, load_internal_payments, load_clearing_file}
use global_payments_api.Persist.{persist_results}

-- The summary that a run returns.
pub record Summary (F : Type 0) : Type 0 where
  pub run_id : String
  pub date : String
  pub total : ℕ
  pub matched : ℕ
  pub unmatched : ℕ
  pub exceptions : ℕ
  pub match_rate_pct : F
  pub status : String

unfoldable pub run_id_of : Date → String
unfolding compact
run_id_of d = "RECON-" <> compact d

-- What is left when a block ends: its result, the run object and the world.
abbrev pub Ended : {F : Type 0} → Services F → Type 0 → Type 0
Ended {F} svc A = Result A × ReconciliationRun F × svc.World

module _ (fl : Float) (pd : Pandas fl.F) (stamp_text : ℕ → String) (svc : Services fl.F)
    (ids : ℕ → ℕ) (to_csv : Frame fl.F → String) (bucket : String) where
  open fl use {F, of_int}
  open svc use {World, add_run, set_run, commit, put_object, now, view}

  -- `run = ReconciliationRun(id=…, run_date=…, status='RUNNING')`, with the columns' defaults
  unfoldable pub new_run : Date → ℕ → ReconciliationRun F
  new_run d started = record {
    id = run_id_of d;
    run_date = d;
    started_at = some started;
    completed_at = none;
    total_records = 0;
    matched_count = 0;
    unmatched_count = 0;
    exception_count = 0;
    total_amount_gbp = of_int (pos 0);
    status = "RUNNING";
    error_message = none;
  }

  -- `(results_df['status'] == s).sum()`
  abbrev pub count_status : String → List (Cell F) → ℕ
  count_status s = count_if (λ c. equal_cells fl c (text s))

  -- `float(results_df['internal_amount'].sum() if len(results_df) > 0 else 0)`
  unfoldable pub total_amount : Frame F → Result F
  unfolding column to_float
  total_amount results_df = elim results_df.rows [
    | [] ↦ ok (of_int (pos 0))
    | row ∷ rows ↦ do
      cells ← column "internal_amount" results_df
      total ← pd.sum cells
      to_float fl total
  ]

  abbrev pub upload_key : Date → String → String
  upload_key d run_id = "reconciliation-reports/" <> slashed d <> "/" <> run_id <> "-report.csv"

  -- `_upload_report`: what the upload raises is only logged.
  unfoldable pub upload_report : Frame F → String → Date → World → World
  upload_report results_df run_id d w =
      (put_object bucket (upload_key d run_id) (to_csv results_df) w).1

  abbrev pub summary_of : ReconciliationRun F → Date → ℕ → Summary F
  summary_of run d total = record {
    run_id = run.id;
    date = iso d;
    total = total;
    matched = run.matched_count;
    unmatched = run.unmatched_count;
    exceptions = run.exception_count;
    match_rate_pct = match_rate fl run.matched_count run.total_records;
    status = "COMPLETED";
  }

  -- The run object after a commit that failed: the rollback expires it, so that it is read again.
  abbrev pub expired : ReconciliationRun F → World → ReconciliationRun F
  expired run w = stored_or run (find_run run.id (view w).runs)

  -- Behind the commit of the counters: the upload and the summary.
  abbrev pub report_run :
      Frame F → Date → ReconciliationRun F → Result (Unit {0}) × World → Ended svc (Summary F)
  report_run results_df d run (err e, w) = (err e, expired run w, w)
  report_run results_df d run (ok u, w) =
      (ok (summary_of run d (length results_df.rows)), run, upload_report results_df run.id d w)

  -- The counters, of the cells of the column `status`.
  abbrev pub with_counts : Frame F → List (Cell F) → ReconciliationRun F → ReconciliationRun F
  with_counts results_df statuses run = record run {
    total_records = length results_df.rows;
    matched_count = count_status "MATCHED" statuses;
    unmatched_count = count_status "UNMATCHED" statuses;
    exception_count = count_status "EXCEPTION" statuses;
  }

  abbrev pub with_total : F → ℕ → ReconciliationRun F → ReconciliationRun F
  with_total total at run = record run {
    completed_at = some at;
    total_amount_gbp = total;
    status = "COMPLETED";
  }

  abbrev pub commit_total :
      Frame F → Date → ReconciliationRun F → Result F → World → Ended svc (Summary F)
  commit_total results_df d run (err e) w = (err e, run, w)
  commit_total results_df d run (ok total) w =
      let done = with_total total (now w) run in
      report_run results_df d done (commit (set_run done w))

  abbrev pub count_and_commit :
      Frame F → Date → ReconciliationRun F → Result (List (Cell F)) → World → Ended svc (Summary F)
  count_and_commit results_df d run (err e) w = (err e, run, w)
  count_and_commit results_df d run (ok statuses) w =
      commit_total results_df d (with_counts results_df statuses run) (total_amount results_df) w

  -- Steps 5 and 6, once the records are stored.
  unfoldable pub complete_run :
      Frame F → Date → ReconciliationRun F → Result (Unit {0}) × World → Ended svc (Summary F)
  unfolding column total_amount upload_report match_rate
  complete_run results_df d run (err e, w) = (err e, run, w)
  complete_run results_df d run (ok u, w) =
      count_and_commit results_df d run (column "status" results_df) w

  -- Steps 3 and 4.
  abbrev pub compare_and_store :
      Date → ReconciliationRun F → Result (Frame F) → World → Ended svc (Summary F)
  compare_and_store d run (err e) w = (err e, run, w)
  compare_and_store d run (ok results_df) w =
      complete_run results_df d run (persist_results svc ids results_df run.id w)

  -- Step 2, from the payments of step 1.
  abbrev pub compare_with :
      Date → ReconciliationRun F → Frame F → Result (Frame F) × World → Ended svc (Summary F)
  compare_with d run internal_df (err e, w) = (err e, run, w)
  compare_with d run internal_df (ok clearing_df, w) =
      compare_and_store d run (reconcile fl pd stamp_text internal_df clearing_df) w

  abbrev pub load_and_compare :
      Date → ReconciliationRun F → Result (Frame F) × World → Ended svc (Summary F)
  load_and_compare d run (err e, w) = (err e, run, w)
  load_and_compare d run (ok internal_df, w) =
      compare_with d run internal_df (load_clearing_file fl pd stamp_text svc bucket d w)

  -- The block under `try`.
  unfoldable pub try_run : Date → ReconciliationRun F → World → Ended svc (Summary F)
  unfolding complete_run persist_results reconcile load_clearing_file load_internal_payments
  try_run d run w = load_and_compare d run (load_internal_payments fl pd stamp_text svc d w)

  -- After the handler's commit: the exception goes on, or the commit's own.
  abbrev pub raise_again : Raised → Result (Unit {0}) × World → Result (Summary F) × World
  raise_again exc (ok u, w) = (err exc, w)
  raise_again exc (err e, w) = (err e, w)

  abbrev pub failed_run : Raised → ℕ → ReconciliationRun F → ReconciliationRun F
  failed_run exc at run = record run {
    completed_at = some at;
    status = "FAILED";
    error_message = some exc.text;
  }

  -- `except Exception as exc`
  abbrev pub handle : Ended svc (Summary F) → Result (Summary F) × World
  handle (ok summary, run, w) = (ok summary, w)
  handle (err exc, run, w) = raise_again exc (commit (set_run (failed_run exc (now w) run) w))

  abbrev pub started :
      Date → ReconciliationRun F → Result (Unit {0}) × World → Result (Summary F) × World
  started d run (err e, w) = (err e, w)
  started d run (ok u, w) = handle (try_run d run w)

  unfoldable pub run_daily_reconciliation : Date → Exec World (Summary F)
  unfolding try_run new_run run_id_of
  run_daily_reconciliation target_date w =
      let run = new_run target_date (now w) in started target_date run (commit (add_run run w))
