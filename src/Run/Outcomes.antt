-- ===== src/Run/Outcomes.antt =====
-- How a run ends: what the tables hold after `run_daily_reconciliation`, on every path.
use mathlib.Core.Path.{subst}
use mathlib.Core.List.{append-nil}
use global_payments_api.Prelude.{
  ℕ, String, ◌==◌, eq_refl, ◌≡◌, refl, sym, ap, ◌∙◌, inl, inr, List, [], ◌∷◌, ◌++◌, some, length,
  Bool-cases,
}
use global_payments_api.Python.Raised.{Result, ok, err}
use global_payments_api.Python.Float.{Float}
use global_payments_api.Python.Date.{Date}
use global_payments_api.Frame.{Cell, Row, Frame}
use global_payments_api.Pandas.{Pandas}
use global_payments_api.Models.{ReconciliationRun, ReconciliationRecord}
use global_payments_api.Services.{
  Payment, Services, View, IsSession, AfterCommit, committed, store_run, id-stored_or,
}
use global_payments_api.Reconcile.{reconcile}
use global_payments_api.Loading.{
  column, payments_frame, loaded_frame-cases, framed, load_internal_payments, load_clearing_file,
}
use global_payments_api.Persist.{persist_results}
use global_payments_api.Persist.Outcome.{IsIdle, AllBuilt, add_records, PersistOutcome}
use global_payments_api.Persist.Batches.{persist_results-PersistOutcome}
use global_payments_api.Run.{
  Summary, Ended, total_amount, upload_report, report_run, with_counts, with_total, commit_total,
  count_and_commit, complete_run, compare_and_store, compare_with, load_and_compare, try_run,
}
use global_payments_api.Run.Effects.{view-load_clearing_file}

-- Storing a run twice is storing it once.
pub store_run-store_run :
    {F : Type 0} (r : ReconciliationRun F) (qs : List (ReconciliationRun F))
    → store_run r (store_run r qs) ≡ store_run r qs
unfolding store_run
store_run-store_run r [] = rw eq_refl
store_run-store_run r (q ∷ qs) = elim (Bool-cases (q.id == r.id)) [
  | inl e ↦ rw (e, eq_refl)
  | inr e ↦ rw (e, e, store_run-store_run r qs)
]

-- The run's row, with the counters of the summary.
pub record IsCompleted {F : Type 0} (id : String) (s : Summary F) (r : ReconciliationRun F)
    : Type 0 where
  pub run_id : r.id ≡ id
  pub summary_id : s.run_id ≡ id
  pub status : r.status ≡ "COMPLETED"
  pub total : r.total_records ≡ s.total
  pub matched : r.matched_count ≡ s.matched
  pub unmatched : r.unmatched_count ≡ s.unmatched
  pub exceptions : r.exception_count ≡ s.exceptions

-- The table is the comparison of the payments of a query with the clearing file of the day.
pub record IsComparisonOf (fl : Float) (pd : Pandas fl.F) (stamp_text : ℕ → String)
    (svc : Services fl.F) (bucket : String) (d : Date) (q : Result (List Payment) × svc.World)
    (result : Frame fl.F) : Type 0 where
  pub payments : List Payment
  pub queried : svc.World
  pub loaded : svc.World
  pub clearing : Frame fl.F
  pub query : q ≡ (ok payments, queried)
  pub file : load_clearing_file fl pd stamp_text svc bucket d queried ≡ (ok clearing, loaded)
  pub comparison :
      reconcile fl pd stamp_text (payments_frame fl pd stamp_text payments) clearing ≡ ok result

module _ (fl : Float) (pd : Pandas fl.F) (stamp_text : ℕ → String) (svc : Services fl.F)
    (sess : IsSession svc) (ids : ℕ → ℕ) (to_csv : Frame fl.F → String) (bucket : String)
    (made : List (Row fl.F) → Type 0) where
  open fl use {F}
  open svc use {World, view}

  -- What the block under `try` does, from a view in which only the new run is tracked.
  abbrev pub TryOutcome : View F → ReconciliationRun F → Ended svc (Summary F) → Type 0
  TryOutcome v run (ok s, run', w') =
      (results : List (Row F)) × (all : List (ReconciliationRecord F)) × AllBuilt run.id ids 0
        results all
      × made results
      × (length results ≡ s.total)
      × IsCompleted run.id s run'
      × (view w' ≡ record (add_records v all) { runs = store_run run' v.runs; tracked = some run' })
  TryOutcome v run (err e, run', w') = (run'.id ≡ run.id) × ((view w').runs ≡ v.runs)

  committed-done :
      (v : View F) (all : List (ReconciliationRecord F)) (done : ReconciliationRun F)
      → IsIdle v
      → committed (record (add_records v all) { tracked = some done })
        ≡ record (add_records v all) { runs = store_run done v.runs; tracked = some done }
  committed-done v all done idle = λ i. record {
    runs = store_run done v.runs;
    records =
        (ap (λ l. (v.records ++ all) ++ l) idle.nothing_staged ∙ append-nil (v.records ++ all)) i;
    tracked = some done;
    fresh = sym idle.inserted i;
    staged = sym idle.nothing_staged i;
  }

  report_run-TryOutcome :
      (v u : View F) (run done : ReconciliationRun F) (results_df : Frame F) (d : Date)
      (all : List (ReconciliationRecord F)) (m : Result (Unit {0}) × World)
      → IsIdle v
      → AllBuilt run.id ids 0 results_df.rows all
      → made results_df.rows
      → u ≡ record (add_records v all) { tracked = some done }
      → done.id ≡ run.id
      → done.status ≡ "COMPLETED"
      → done.total_records ≡ length results_df.rows
      → AfterCommit svc u m
      → TryOutcome v run (report_run fl pd stamp_text svc ids to_csv bucket results_df d done m)
  unfolding upload_report
  report_run-TryOutcome v u run done results_df d all (ok _, w') idle built of e same st tot h = (
    results_df.rows,
    all,
    built,
    of,
    refl,
    record {
      run_id = same;
      summary_id = same;
      status = st;
      total = tot;
      matched = refl;
      unmatched = refl;
      exceptions = refl;
    },
    sess.view-put _ _ _ w' ∙ h ∙ ap committed e ∙ committed-done v all done idle,
  )
  report_run-TryOutcome v u run done results_df d all (err x, w') idle built of e same st tot h =
      (id-stored_or done done.id (view w').runs refl ∙ same, h.runs ∙ ap (λ (y : View F). y.runs) e)

  module _ (v : View F) (run : ReconciliationRun F) (d : Date) (idle : IsIdle v) where
    commit_total-TryOutcome :
        (counted : ReconciliationRun F) (results_df : Frame F) (all : List (ReconciliationRecord F))
        (total : Result F) (w : World)
        → AllBuilt run.id ids 0 results_df.rows all
        → made results_df.rows
        → view w ≡ add_records v all
        → counted.id ≡ run.id
        → counted.total_records ≡ length results_df.rows
        → TryOutcome v run
            (commit_total fl pd stamp_text svc ids to_csv bucket results_df d counted total w)
    commit_total-TryOutcome counted results_df all (err x) w built of e same tot =
        (same, ap (λ (y : View F). y.runs) e)
    commit_total-TryOutcome counted results_df all (ok total) w built of e same tot =
        let done = with_total fl pd stamp_text svc ids to_csv bucket total (svc.now w) counted in
        report_run-TryOutcome v (view (svc.set_run done w)) run done results_df d all
          (svc.commit (svc.set_run done w)) idle built of
          (sess.view-set_run done w ∙ ap (λ (y : View F). record y { tracked = some done }) e) same
          refl tot (sess.commit_lem (svc.set_run done w))

    complete_run-TryOutcome :
        (results_df : Frame F) (m : Result (Unit {0}) × World)
        → made results_df.rows
        → PersistOutcome svc run.id ids results_df.rows v m
        → TryOutcome v run (complete_run fl pd stamp_text svc ids to_csv bucket results_df d run m)
    unfolding complete_run
    complete_run-TryOutcome results_df (err x, w) of (saved, k, first, len, h) = (refl, h.runs)
    complete_run-TryOutcome results_df (ok _, w) of (all, built, e) =
        counted (column "status" results_df)
      where
        counted :
            (statuses : Result (List (Cell F)))
            → TryOutcome v run (
                count_and_commit fl pd stamp_text svc ids to_csv bucket results_df d run statuses w)
        counted (err x) = (refl, ap (λ (y : View F). y.runs) e)
        counted (ok statuses) =
            commit_total-TryOutcome
              (with_counts fl pd stamp_text svc ids to_csv bucket results_df statuses run)
              results_df all (total_amount fl pd stamp_text svc ids to_csv bucket results_df) w
              built of e refl refl

    compare_and_store-TryOutcome :
        (r : Result (Frame F)) (w : World)
        → ((result : Frame F) → r ≡ ok result → made result.rows)
        → view w ≡ v
        → TryOutcome v run (compare_and_store fl pd stamp_text svc ids to_csv bucket d run r w)
    compare_and_store-TryOutcome (err x) w of e = (refl, ap (λ (y : View F). y.runs) e)
    compare_and_store-TryOutcome (ok results_df) w of e =
        complete_run-TryOutcome results_df (persist_results svc ids results_df run.id w)
          (of results_df refl)
          (subst
            (λ u.
              PersistOutcome svc run.id ids results_df.rows u
                (persist_results svc ids results_df run.id w))
            e
            (persist_results-PersistOutcome svc sess ids results_df run.id w
              (subst IsIdle (sym e) idle)))

    compare_with-TryOutcome :
        (internal_df : Frame F) (m : Result (Frame F) × World)
        → ((clearing result : Frame F) (w : World)
            → m ≡ (ok clearing, w)
            → reconcile fl pd stamp_text internal_df clearing ≡ ok result
            → made result.rows)
        → view m.1 ≡ v
        → TryOutcome v run (compare_with fl pd stamp_text svc ids to_csv bucket d run internal_df m)
    compare_with-TryOutcome internal_df (err x, w) of e = (refl, ap (λ (y : View F). y.runs) e)
    compare_with-TryOutcome internal_df (ok clearing_df, w) of e =
        compare_and_store-TryOutcome (reconcile fl pd stamp_text internal_df clearing_df) w
          (λ result h. of clearing_df result w refl h) e

    load_and_compare-TryOutcome :
        (q : Result (List Payment) × World)
        → ((result : Frame F)
            → IsComparisonOf fl pd stamp_text svc bucket d q result
            → made result.rows)
        → view q.1 ≡ v
        → TryOutcome v run (
            load_and_compare fl pd stamp_text svc ids to_csv bucket d run
              (framed fl pd stamp_text svc q))
    load_and_compare-TryOutcome (err x, w) of e = (refl, ap (λ (y : View F). y.runs) e)
    load_and_compare-TryOutcome (ok ps, w) of e = elim (loaded_frame-cases fl pd stamp_text ps) [
      | inr (x, raised) ↦ rw raised (refl, ap (λ (y : View F). y.runs) e)
      | inl loaded ↦ rw loaded (
          compare_with-TryOutcome (payments_frame fl pd stamp_text ps)
            (load_clearing_file fl pd stamp_text svc bucket d w)
            (λ clearing result w' file h. of result (record {
              payments = ps;
              queried = w;
              loaded = w';
              clearing = clearing;
              query = refl;
              file = file;
              comparison = h;
            }))
            (view-load_clearing_file fl pd stamp_text svc sess bucket d w ∙ e))
    ]

    pub try_run-TryOutcome :
        (w : World)
        → ((result : Frame F)
            → IsComparisonOf fl pd stamp_text svc bucket d (svc.query_payments d w) result
            → made result.rows)
        → view w ≡ v
        → TryOutcome v run (try_run fl pd stamp_text svc ids to_csv bucket d run w)
    unfolding try_run load_internal_payments
    try_run-TryOutcome w of e =
        load_and_compare-TryOutcome (svc.query_payments d w) of (sess.view-query d w ∙ e)
