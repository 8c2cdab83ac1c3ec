-- ===== src/Routes/Exceptions.antt =====
-- `GET /api/v1/reports/exceptions`: `exceptions_report` of
-- data-processing-service/app/routes/reports.py. `from_iso` is `date.fromisoformat`; `by_reference` is
-- the `order_by` of the query. The columns are read as the job wrote them.
use global_payments_api.Prelude.{
  ℕ, suc, String, ◌==◌, eq_refl, ◌≡◌, refl, sym, ap, ◌∙◌, Bool, false, ◌&&◌, List, [], ◌∷◌, ◌++◌,
  map, Option, none, some, length, select, count_if, All, Bool-cases, inl, inr, if◌then◌else◌,
}
use global_payments_api.Python.Raised.{Raised, Class, value_error, Result, ok, err, >>=-eq-ok}
use global_payments_api.Python.Float.{Float}
use global_payments_api.Python.Date.{Date}
use global_payments_api.Frame.{Cell, Row, Frame, get, item, is_empty}
use global_payments_api.Pandas.{Pandas, IsDocumented}
use global_payments_api.Models.{ReconciliationRun, ReconciliationRecord}
use global_payments_api.Services.{Services}
use global_payments_api.Reconcile.{reconcile}
use global_payments_api.Reconcile.Cells.{cell_text}
use global_payments_api.Persist.{status_cell, record_of}
use global_payments_api.Persist.Outcome.{AllBuilt}
use global_payments_api.Routes.Amounts.{text_if}
use global_payments_api.Run.{run_id_of, with_counts}
use global_payments_api.Run.Flags.{with_counts-record_of}

-- An entry of the report.
pub record Entry (F : Type 0) : Type 0 where
  pub payment_reference : Cell F
  pub internal_amount : String
  pub clearing_amount : Option String
  pub discrepancy_amount : Option String
  pub notes : Cell F

pub record ExceptionsReport (F : Type 0) : Type 0 where
  pub run_id : String
  pub date : String
  pub count : ℕ
  pub exceptions : List (Entry F)

pub data Answer (F : Type 0) : Type 0 where
  date_required : Answer F
  invalid_date : Answer F
  escapes : Raised → Answer F
  report : ExceptionsReport F → Answer F

module _ (fl : Float) (stamp_text : ℕ → String) (from_iso : String → Result Date)
    (by_reference : List (ReconciliationRecord fl.F) → List (ReconciliationRecord fl.F)) where
  open fl use {F}

  unfoldable pub entry : ReconciliationRecord F → Entry F
  unfolding cell_text
  entry r = record {
    payment_reference = r.payment_reference;
    internal_amount = cell_text fl stamp_text r.internal_amount;
    clearing_amount = text_if fl stamp_text r.clearing_amount;
    discrepancy_amount = text_if fl stamp_text r.discrepancy_amount;
    notes = r.notes;
  }

  -- `filter_by(reconciliation_run_id=run_id, requires_investigation=True)`
  abbrev pub is_reported : String → ReconciliationRecord F → Bool
  is_reported run_id r = (r.reconciliation_run_id == run_id) && r.requires_investigation

  abbrev pub report_on : String → Date → List (ReconciliationRecord F) → ExceptionsReport F
  report_on date_str run_date table =
      let records = by_reference (select (is_reported (run_id_of run_date)) table) in
      record {
        run_id = run_id_of run_date;
        date = date_str;
        count = length records;
        exceptions = map entry records;
      }

  -- `except ValueError`
  abbrev not_iso : Class → Raised → Answer F
  not_iso value_error e = invalid_date
  not_iso _ e = escapes e

  abbrev pub answer : String → List (ReconciliationRecord F) → Result Date → Answer F
  answer date_str table (ok run_date) = report (report_on date_str run_date table)
  answer date_str table (err e) = not_iso e.kind e

  -- The report on the table of records.
  unfoldable pub exceptions_report : Option String → List (ReconciliationRecord F) → Answer F
  unfolding entry
  exceptions_report none table = date_required
  exceptions_report (some date_str) table =
      if date_str == "" then date_required else answer date_str table (from_iso date_str)

  length-select :
      (p : ReconciliationRecord F → Bool) (rs : List (ReconciliationRecord F))
      → length (select p rs) ≡ count_if p rs
  length-select p [] = refl
  length-select p (r ∷ rs) = elim (Bool-cases (p r)) [
    | inl e ↦ rw e (ap suc (length-select p rs))
    | inr e ↦ rw e (length-select p rs)
  ]

  -- Records of other runs are not reported.
  others_not_reported :
      (id : String) (old all : List (ReconciliationRecord F))
      → All (λ r. (r.reconciliation_run_id == id) ≡ false) old
      → count_if (is_reported id) (old ++ all) ≡ count_if (is_reported id) all
  others_not_reported id [] all h = refl
  others_not_reported id (r ∷ old) all (e, h) = rw e (others_not_reported id old all h)

  record_of-run_id :
      (id : String) (n : ℕ) (row : Row F) (r : ReconciliationRecord F)
      → record_of id n row ≡ ok r
      → r.reconciliation_run_id ≡ id
  unfolding record_of
  record_of-run_id id n row r h =
      let (reference, _, h1) = >>=-eq-ok (item "payment_reference" row) _ h in
      let (outcome, _, h2) = >>=-eq-ok (item "status" row) _ h1 in
      let (status, _, h3) = >>=-eq-ok (status_cell outcome) _ h2 in sym (ap run_of h3)
    where
      run_of : Result (ReconciliationRecord F) → String
      run_of (ok q) = q.reconciliation_run_id
      run_of (err e) = id

  own_reported :
      (id : String) (ids : ℕ → ℕ) (n : ℕ) (rows : List (Row F))
      (all : List (ReconciliationRecord F))
      → AllBuilt id ids n rows all
      → count_if (is_reported id) all ≡ count_if (λ r. r.requires_investigation) all
  own_reported id ids n [] [] b = refl
  own_reported id ids n [] (r ∷ all) b = absurd b
  own_reported id ids n (row ∷ rows) [] b = absurd b
  own_reported id ids n (row ∷ rows) (r ∷ all) (q, b) =
      let same = own_reported id ids (suc n) rows all b in
      rw (record_of-run_id id (ids n) row r q, eq_refl, same)

  module _ (pd : Pandas F) (doc : IsDocumented fl.nan pd) (svc : Services F) (ids : ℕ → ℕ)
      (to_csv : Frame F → String) (bucket : String) where
    -- With pandas as documented and an order that keeps the number of records: if a comparison, of
    -- payments that are not an empty table, succeeds, its records are stored under the key of a date
    -- behind records of other runs, and a request gives that date in ISO format, then it is answered
    -- by a report whose count is the number of exceptions that the run counts.
    pub exceptions_report-with_counts :
        ((rs : List (ReconciliationRecord F)) → length (by_reference rs) ≡ length rs)
        → (date_str : String) (d : Date) (internal clearing result : Frame F)
          (run : ReconciliationRun F) (old all : List (ReconciliationRecord F))
        → (date_str == "") ≡ false
        → from_iso date_str ≡ ok d
        → is_empty internal ≡ false
        → reconcile fl pd stamp_text internal clearing ≡ ok result
        → AllBuilt (run_id_of d) ids 0 result.rows all
        → All (λ r. (r.reconciliation_run_id == run_id_of d) ≡ false) old
        → (answer : ExceptionsReport F) × (exceptions_report (some date_str) (old ++ all)
            ≡ report answer)
          × (answer.count
              ≡ (with_counts fl pd stamp_text svc ids to_csv bucket result
                  (map (get "status") result.rows)
                  run).exception_count)
    unfolding exceptions_report
    exceptions_report-with_counts keeps date_str d internal clearing result run old all given parses
          filled h built others =
        let id = run_id_of d in
        (
          report_on date_str d (old ++ all),
          rw (given, parses) refl,
          keeps (select (is_reported id) (old ++ all))
              ∙ length-select (is_reported id) (old ++ all)
              ∙ others_not_reported id old all others
              ∙ own_reported id ids 0 result.rows all built
              ∙ with_counts-record_of fl pd stamp_text doc svc ids to_csv bucket internal clearing
                  result run id all filled h built,
        )
