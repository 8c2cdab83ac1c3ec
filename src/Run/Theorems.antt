-- ===== src/Run/Theorems.antt =====
-- What the tables hold after a run, on every path.
use mathlib.Core.Path.{subst}
use mathlib.Core.List.{append-nil}
use global_payments_api.Prelude.{
  ℕ, String, ◌≡◌, refl, ap, ◌∙◌, ◌⊎◌, inl, inr, true, List, [], ◌++◌, some, length,
}
use global_payments_api.Python.Raised.{Raised, Result, ok, err}
use global_payments_api.Python.Float.{Float}
use global_payments_api.Python.Date.{Date}
use global_payments_api.Frame.{Row, Frame}
use global_payments_api.Pandas.{Pandas}
use global_payments_api.Models.{ReconciliationRun, ReconciliationRecord}
use global_payments_api.Services.{
  Services, View, IsSession, SameStored, AfterCommit, committed, store_run, find_run,
  find_run-store_run,
}
use global_payments_api.Persist.Outcome.{IsIdle, AllBuilt}
use global_payments_api.Run.{
  Summary, run_id_of, Ended, new_run, try_run, raise_again, failed_run, handle, started,
  run_daily_reconciliation,
}
use global_payments_api.Run.Outcomes.{
  IsCompleted, IsComparisonOf, TryOutcome, try_run-TryOutcome, store_run-store_run,
}

-- A run that raised `e` is still RUNNING, or FAILED with the text of `e`.
abbrev pub IsUnfinished : {F : Type 0} → Raised → ReconciliationRun F → Type 0
IsUnfinished e r =
    (r.status ≡ "RUNNING") ⊎ ((r.status ≡ "FAILED") × (r.error_message ≡ some e.text))

-- The rows are those of a comparison of the payments of the query for the day `d`, at some time, with
-- the clearing file of that day.
abbrev pub IsOfDay :
    (fl : Float)
    → Pandas fl.F
    → (ℕ → String)
    → (svc : Services fl.F) → String
    → Date
    → List (Row fl.F)
    → Type 0
IsOfDay fl pd stamp_text svc bucket d rows =
    (w : svc.World) × (result : Frame fl.F) × IsComparisonOf fl pd stamp_text svc bucket d
      (svc.query_payments d w) result
    × (result.rows ≡ rows)

-- How a run with the key `id` ends, from the view `v`, where its rows are `made`. A run that returns
-- has stored a record of each row of its result behind the records that were there, and its own row
-- as COMPLETED with the counters of the summary. One that raises has changed nothing, or left an unfinished row.
abbrev pub RunOutcome :
    (fl : Float) (svc : Services fl.F)
    → (ℕ → ℕ)
    → (List (Row fl.F) → Type 0)
    → String
    → View fl.F
    → Result (Summary fl.F) × svc.World
    → Type 0
RunOutcome fl svc ids made id v (ok s, w') =
    (r : ReconciliationRun fl.F) × (results : List (Row fl.F)) × (all : List
      (ReconciliationRecord fl.F))
    × (find_run id (svc.view w').runs ≡ some r)
    × IsCompleted id s r
    × AllBuilt id ids 0 results all
    × made results
    × (length results ≡ s.total)
    × ((svc.view w').records ≡ v.records ++ all)
RunOutcome fl svc ids made id v (err e, w') =
    SameStored v (svc.view w')
    ⊎ ((r : ReconciliationRun fl.F) × (find_run id (svc.view w').runs ≡ some r) × IsUnfinished e r)

module _ (fl : Float) (pd : Pandas fl.F) (stamp_text : ℕ → String) (svc : Services fl.F)
    (sess : IsSession svc) (ids : ℕ → ℕ) (to_csv : Frame fl.F → String) (bucket : String) where
  open fl use {F}
  open svc use {World, view}

  find_stored :
      (id : String) (r : ReconciliationRun F) (runs : List (ReconciliationRun F))
      → r.id ≡ id
      → find_run id (store_run r runs) ≡ some r
  find_stored id r runs e =
      subst (λ i. find_run i (store_run r runs) ≡ some r) e (find_run-store_run r runs)

  raise_again-RunOutcome :
      (made : List (Row F) → Type 0) (id : String) (v0 u : View F) (exc : Raised) (at : ℕ)
      (run run' : ReconciliationRun F) (m : Result (Unit {0}) × World)
      → run.status ≡ "RUNNING"
      → find_run id u.runs ≡ some run
      → run'.id ≡ id
      → AfterCommit svc
          (record u {
            tracked = some (failed_run fl pd stamp_text svc ids to_csv bucket exc at run');
          })
          m
      → RunOutcome fl svc ids made id v0 (raise_again fl pd stamp_text svc ids to_csv bucket exc m)
  raise_again-RunOutcome made id v0 u exc at run run' (ok _, w') going found same h = inr (
    failed_run fl pd stamp_text svc ids to_csv bucket exc at run',
    ap (λ (y : View F). find_run id y.runs) h
        ∙ find_stored id (failed_run fl pd stamp_text svc ids to_csv bucket exc at run') u.runs
            same,
    inr (refl, refl),
  )
  raise_again-RunOutcome made id v0 u exc at run run' (err e, w') going found same h =
      inr (run, ap (find_run id) h.runs ∙ found, inl going)

  handle-RunOutcome :
      (made : List (Row F) → Type 0) (v0 v : View F) (run : ReconciliationRun F)
      (m : Ended svc (Summary F))
      → v.records ≡ v0.records
      → run.status ≡ "RUNNING"
      → find_run run.id v.runs ≡ some run
      → TryOutcome fl pd stamp_text svc sess ids to_csv bucket made v run m
      → RunOutcome fl svc ids made run.id v0 (handle fl pd stamp_text svc ids to_csv bucket m)
  handle-RunOutcome made v0 v run (ok s, run', w') same going found
        (results, all, built, of, len, done, e) =
      (
        run',
        results,
        all,
        ap (λ (y : View F). find_run run.id y.runs) e ∙ find_stored run.id run' v.runs done.run_id,
        done,
        built,
        of,
        len,
        ap (λ (y : View F). y.records) e ∙ ap (λ l. l ++ all) same,
      )
  handle-RunOutcome made v0 v run (err exc, run', w') same going found (id, runs) =
      let failed = failed_run fl pd stamp_text svc ids to_csv bucket exc (svc.now w') run' in
      raise_again-RunOutcome made run.id v0 (view w') exc (svc.now w') run run'
        (svc.commit (svc.set_run failed w')) going (ap (find_run run.id) runs ∙ found) id
        (subst (λ u. AfterCommit svc u (svc.commit (svc.set_run failed w')))
          (sess.view-set_run failed w') (sess.commit_lem (svc.set_run failed w')))

  first_view : View F → ReconciliationRun F → View F
  first_view v run = committed (record v { tracked = some run; fresh = true })

  first_view-IsIdle : (v : View F) (run : ReconciliationRun F) → IsIdle (first_view v run)
  unfolding first_view
  first_view-IsIdle v run = record {
    stored = store_run-store_run run v.runs;
    inserted = refl;
    nothing_staged = refl;
  }

  started-RunOutcome :
      (made : List (Row F) → Type 0) (v0 u : View F) (run : ReconciliationRun F) (d : Date)
      (m : Result (Unit {0}) × World)
      → ((w : World) (result : Frame F)
          → IsComparisonOf fl pd stamp_text svc bucket d (svc.query_payments d w) result
          → made result.rows)
      → v0.staged ≡ []
      → run.status ≡ "RUNNING"
      → u ≡ record v0 { tracked = some run; fresh = true }
      → AfterCommit svc u m
      → RunOutcome fl svc ids made run.id v0
          (started fl pd stamp_text svc ids to_csv bucket d run m)
  unfolding first_view
  started-RunOutcome made v0 u run d (err e, w) of idle going q h = inl (record {
    runs = h.runs ∙ ap (λ (y : View F). y.runs) q;
    records = h.records ∙ ap (λ (y : View F). y.records) q;
    nothing_staged = h.nothing_staged;
  })
  started-RunOutcome made v0 u run d (ok _, w) of idle going q h =
      handle-RunOutcome made v0 (first_view v0 run) run
        (try_run fl pd stamp_text svc ids to_csv bucket d run w)
        (ap (λ l. v0.records ++ l) idle ∙ append-nil v0.records) going
        (find_run-store_run run v0.runs)
        (try_run-TryOutcome fl pd stamp_text svc sess ids to_csv bucket made (first_view v0 run) run
          d (first_view-IsIdle v0 run) w (of w) (h ∙ ap committed q))

  -- From a session with no records staged, a run ends in one of three ways: it returns, with a record
  -- of each row of a comparison of the payments that the query gives for the day with the day's
  -- clearing file, stored behind the older ones, and its own row COMPLETED with the counters of the
  -- summary; or it raises with the tables as they were; or it raises with its row
  -- left RUNNING, or marked FAILED with the text of what it raises.
  pub run_daily_reconciliation-RunOutcome :
      (d : Date) (w : World)
      → (view w).staged ≡ []
      → RunOutcome fl svc ids
          (IsOfDay fl pd stamp_text svc bucket d)
          (run_id_of d)
          (view w)
          (run_daily_reconciliation fl pd stamp_text svc ids to_csv bucket d w)
  unfolding run_daily_reconciliation
  run_daily_reconciliation-RunOutcome d w idle =
      let run = new_run fl pd stamp_text svc ids to_csv bucket d (svc.now w) in
      started-RunOutcome _ (view w) (view (svc.add_run run w)) run d
        (svc.commit (svc.add_run run w)) (λ w' result c. (w', result, c, refl)) idle refl
        (sess.view-add_run run w) (sess.commit_lem (svc.add_run run w))
