-- ===== src/Routes/Runs.antt =====
-- `GET /api/v1/reconciliation/runs/<run_id>`: `get_run` of
-- data-processing-service/app/routes/reconciliation.py. The texts of datetimes and of the amount are
-- parameters.
use global_payments_api.Prelude.{ℕ, String, ◌≡◌, refl, Option, none, some, List, []}
use global_payments_api.Python.Raised.{Result, ok, err}
use global_payments_api.Python.Float.{Float}
use global_payments_api.Python.Date.{Date}
use global_payments_api.Frame.{Row, Frame}
use global_payments_api.Pandas.{Pandas}
use global_payments_api.Models.{ReconciliationRun, match_rate}
use global_payments_api.Services.{Services, IsSession, View, find_run}
use global_payments_api.Run.{Summary, run_id_of, run_daily_reconciliation}
use global_payments_api.Run.Theorems.{RunOutcome, run_daily_reconciliation-RunOutcome}

pub record RunBody (F : Type 0) : Type 0 where
  pub id : String
  pub run_date : String
  pub status : String
  pub total_records : ℕ
  pub matched : ℕ
  pub unmatched : ℕ
  pub exceptions : ℕ
  pub match_rate_pct : F
  pub total_amount_gbp : String
  pub error_message : Option String
  pub started_at : Option String
  pub completed_at : Option String

-- A response: the body, or a 404.
pub data Found (F : Type 0) : Type 0 where
  not_found_404 : Found F
  found_200 : RunBody F → Found F

module _ (fl : Float) (date_text : Date → String) (time_text : ℕ → String)
    (amount_text : fl.F → String) where
  open fl use {F}

  -- `t.isoformat() if t else None`
  abbrev text_of_time : Option ℕ → Option String
  text_of_time none = none
  text_of_time (some t) = some (time_text t)

  abbrev pub run_body : ReconciliationRun F → RunBody F
  run_body run = record {
    id = run.id;
    run_date = date_text run.run_date;
    status = run.status;
    total_records = run.total_records;
    matched = run.matched_count;
    unmatched = run.unmatched_count;
    exceptions = run.exception_count;
    match_rate_pct = match_rate fl run.matched_count run.total_records;
    total_amount_gbp = amount_text run.total_amount_gbp;
    error_message = run.error_message;
    started_at = text_of_time run.started_at;
    completed_at = text_of_time run.completed_at;
  }

  abbrev pub found_or_404 : Option (ReconciliationRun F) → Found F
  found_or_404 none = not_found_404
  found_or_404 (some run) = found_200 (run_body run)

  unfoldable pub get_run : String → List (ReconciliationRun F) → Found F
  unfolding find_run match_rate
  get_run run_id runs = found_or_404 (find_run run_id runs)

  -- What a request for the run with the key `id` gets from the tables after a run: where it returned
  -- `s`, a completed body with the counters of `s`.
  abbrev pub Shows : (svc : Services F) → String → Result (Summary F) × svc.World → Type 0
  Shows svc id (err e, w) = Unit
  Shows svc id (ok s, w) =
      (b : RunBody F) × (get_run id (svc.view w).runs ≡ found_200 b)
      × (b.id ≡ s.run_id)
      × (b.status ≡ "COMPLETED")
      × (b.total_records ≡ s.total)
      × (b.matched ≡ s.matched)
      × (b.unmatched ≡ s.unmatched)
      × (b.exceptions ≡ s.exceptions)

  module _ (pd : Pandas F) (stamp_text : ℕ → String) (svc : Services F) (sess : IsSession svc)
      (ids : ℕ → ℕ) (to_csv : Frame F → String) (bucket : String) where
    open svc use {World, view}

    outcome-Shows :
        (made : List (Row fl.F) → Type 0) (id : String) (v : View F)
        (m : Result (Summary F) × World)
        → RunOutcome fl svc ids made id v m
        → Shows svc id m
    unfolding get_run
    outcome-Shows made id v (err e, w) h = tt
    outcome-Shows made id v (ok s, w) (r, results, all, found, done, built, of, len, recs) = (
      run_body r,
      rw found refl,
      cc (done.run_id, done.summary_id),
      done.status,
      done.total,
      done.matched,
      done.unmatched,
      done.exceptions,
    )

    -- From a session with no records staged: where a run of a date returns, `get_run` of that date's
    -- key, on the tables that it leaves, finds a body that is COMPLETED, with the key and the four
    -- counters of the summary that the run returned.
    pub get_run-run_daily_reconciliation :
        (d : Date) (w : World)
        → (view w).staged ≡ []
        → Shows svc
            (run_id_of d)
            (run_daily_reconciliation fl pd stamp_text svc ids to_csv bucket d w)
    get_run-run_daily_reconciliation d w idle =
        outcome-Shows _ (run_id_of d) (view w) _
          (run_daily_reconciliation-RunOutcome fl pd stamp_text svc sess ids to_csv bucket d w idle)
