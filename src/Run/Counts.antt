-- ===== src/Run/Counts.antt =====
-- The counters of a run: the three statuses add up to the number of rows.
use mathlib.Core.Path.{subst}
use global_payments_api.Prelude.{
  ℕ, ◌+◌, String, ◌≡◌, refl, Bool-cases, inl, inr, List, [], ◌∷◌, map, length, All,
}
use global_payments_api.Python.Raised.{Result, ok, err}
use global_payments_api.Python.Float.{Float}
use global_payments_api.Python.Date.{Date}
use global_payments_api.Frame.{Frame, contains, get}
use global_payments_api.Pandas.{Pandas, IsDocumented}
use global_payments_api.Models.{ReconciliationRun}
use global_payments_api.Services.{Services, Payment}
use global_payments_api.Reconcile.{reconcile}
use global_payments_api.Reconcile.Statuses.{IsStatus, reconcile-IsStatus, counts_add_up}
use global_payments_api.Loading.{
  column, payments_frame, loaded_frame-cases, framed, load_internal_payments, load_clearing_file,
}
use global_payments_api.Persist.{persist_results}
use global_payments_api.Run.{
  Summary, Ended, total_amount, report_run, with_counts, commit_total, complete_run,
  compare_and_store, compare_with, load_and_compare, try_run, raise_again, handle, started,
  run_daily_reconciliation,
}

-- A summary whose three counters add up to its total.
abbrev pub AddsUp : {F W : Type 0} → Result (Summary F) × W → Type 0
AddsUp (ok s, w) = s.matched + s.unmatched + s.exceptions ≡ s.total
AddsUp (err e, w) = Unit

module _ (fl : Float) (pd : Pandas fl.F) (stamp_text : ℕ → String) (doc : IsDocumented fl.nan pd)
    (svc : Services fl.F) (ids : ℕ → ℕ) (to_csv : Frame fl.F → String) (bucket : String) where
  open fl use {F}
  open svc use {World}

  abbrev EndsAddsUp : Ended svc (Summary F) → Type 0
  EndsAddsUp (ok s, run, w) = s.matched + s.unmatched + s.exceptions ≡ s.total
  EndsAddsUp (err e, run, w) = Unit

  -- A comparison that succeeds gives every row a status, and an empty table has no row.
  reconcile_statuses :
      (ps : List Payment) (clearing_df results_df : Frame F)
      → reconcile fl pd stamp_text (payments_frame fl pd stamp_text ps) clearing_df ≡ ok results_df
      → All (λ r. IsStatus (get "status" r)) results_df.rows
  unfolding reconcile payments_frame
  reconcile_statuses [] clearing_df results_df h =
      subst (λ (f : Frame F). All (λ r. IsStatus (get "status" r)) f.rows) (ok_frame h) tt
    where
      ok_frame : {a b : Frame F} → ok a ≡ ok b → a ≡ b
      ok_frame e = cc
  reconcile_statuses (p ∷ ps) clearing_df results_df h =
      reconcile-IsStatus fl pd stamp_text doc (payments_frame fl pd stamp_text (p ∷ ps)) clearing_df
        results_df refl h

  report_run-AddsUp :
      (results_df : Frame F) (d : Date) (done : ReconciliationRun F) (m : Result (Unit {0}) × World)
      → done.matched_count + done.unmatched_count + done.exception_count ≡ length results_df.rows
      → EndsAddsUp (report_run fl pd stamp_text svc ids to_csv bucket results_df d done m)
  report_run-AddsUp results_df d done (ok u, w) h = h
  report_run-AddsUp results_df d done (err e, w) h = tt

  commit_total-AddsUp :
      (results_df : Frame F) (d : Date) (run : ReconciliationRun F) (total : Result F) (w : World)
      → run.matched_count + run.unmatched_count + run.exception_count ≡ length results_df.rows
      → EndsAddsUp (commit_total fl pd stamp_text svc ids to_csv bucket results_df d run total w)
  commit_total-AddsUp results_df d run (err e) w h = tt
  commit_total-AddsUp results_df d run (ok total) w h = report_run-AddsUp results_df d _ _ h

  complete_run-AddsUp :
      (results_df : Frame F) (d : Date) (run : ReconciliationRun F) (m : Result (Unit {0}) × World)
      → All (λ r. IsStatus (get "status" r)) results_df.rows
      → EndsAddsUp (complete_run fl pd stamp_text svc ids to_csv bucket results_df d run m)
  unfolding complete_run column
  complete_run-AddsUp results_df d run (err e, w) h = tt
  complete_run-AddsUp results_df d run (ok u, w) h =
      elim (Bool-cases (contains "status" results_df.columns)) [
        | inl e ↦ rw e (
            commit_total-AddsUp results_df d
              (with_counts fl pd stamp_text svc ids to_csv bucket results_df
                (map (get "status") results_df.rows) run)
              (total_amount fl pd stamp_text svc ids to_csv bucket results_df) w
              (counts_add_up fl results_df.rows h))
        | inr e ↦ rw e tt
      ]

  compare_and_store-AddsUp :
      (ps : List Payment) (clearing_df : Frame F) (d : Date) (run : ReconciliationRun F)
      (r : Result (Frame F)) (w : World)
      → reconcile fl pd stamp_text (payments_frame fl pd stamp_text ps) clearing_df ≡ r
      → EndsAddsUp (compare_and_store fl pd stamp_text svc ids to_csv bucket d run r w)
  compare_and_store-AddsUp ps clearing_df d run (err e) w h = tt
  compare_and_store-AddsUp ps clearing_df d run (ok results_df) w h =
      complete_run-AddsUp results_df d run (persist_results svc ids results_df run.id w)
        (reconcile_statuses ps clearing_df results_df h)

  compare_with-AddsUp :
      (ps : List Payment) (d : Date) (run : ReconciliationRun F) (m : Result (Frame F) × World)
      → EndsAddsUp (
          compare_with fl pd stamp_text svc ids to_csv bucket d run
            (payments_frame fl pd stamp_text ps)
            m)
  compare_with-AddsUp ps d run (err e, w) = tt
  compare_with-AddsUp ps d run (ok clearing_df, w) =
      compare_and_store-AddsUp ps clearing_df d run _ w refl

  load_and_compare-AddsUp :
      (d : Date) (run : ReconciliationRun F) (m : Result (List Payment) × World)
      → EndsAddsUp (
          load_and_compare fl pd stamp_text svc ids to_csv bucket d run
            (framed fl pd stamp_text svc m))
  load_and_compare-AddsUp d run (err e, w) = tt
  load_and_compare-AddsUp d run (ok ps, w) = elim (loaded_frame-cases fl pd stamp_text ps) [
    | inr (x, raised) ↦ rw raised tt
    | inl loaded ↦
        rw loaded
          (compare_with-AddsUp ps d run (load_clearing_file fl pd stamp_text svc bucket d w))
  ]

  raise_again-AddsUp :
      (exc : _) (m : Result (Unit {0}) × World)
      → AddsUp (raise_again fl pd stamp_text svc ids to_csv bucket exc m)
  raise_again-AddsUp exc (ok u, w) = tt
  raise_again-AddsUp exc (err e, w) = tt

  handle-AddsUp :
      (m : Ended svc (Summary F))
      → EndsAddsUp m
      → AddsUp (handle fl pd stamp_text svc ids to_csv bucket m)
  handle-AddsUp (ok s, run, w) h = h
  handle-AddsUp (err exc, run, w) h = raise_again-AddsUp exc _

  started-AddsUp :
      (d : Date) (run : ReconciliationRun F) (m : Result (Unit {0}) × World)
      → AddsUp (started fl pd stamp_text svc ids to_csv bucket d run m)
  unfolding try_run load_internal_payments
  started-AddsUp d run (err e, w) = tt
  started-AddsUp d run (ok u, w) =
      handle-AddsUp (try_run fl pd stamp_text svc ids to_csv bucket d run w)
        (load_and_compare-AddsUp d run (svc.query_payments d w))

  -- With pandas as documented, in every summary that a run returns, the matched, unmatched and
  -- exceptional rows add up to the total.
  pub run_daily_reconciliation-AddsUp :
      (d : Date) (w : World)
      → AddsUp (run_daily_reconciliation fl pd stamp_text svc ids to_csv bucket d w)
  unfolding run_daily_reconciliation
  run_daily_reconciliation-AddsUp d w = started-AddsUp d _ _
