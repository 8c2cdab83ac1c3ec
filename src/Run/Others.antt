-- ===== src/Run/Others.antt =====
-- The rows of other runs.
use mathlib.Core.Path.{subst}
use global_payments_api.Prelude.{String, ◌==◌, ◌≡◌, refl, sym, ap, ◌∙◌, ℕ, true, false, some, List}
use global_payments_api.Python.Raised.{Raised, Result, ok, err}
use global_payments_api.Python.Float.{Float}
use global_payments_api.Python.Date.{Date}
use global_payments_api.Frame.{Frame}
use global_payments_api.Pandas.{Pandas}
use global_payments_api.Models.{ReconciliationRun}
use global_payments_api.Services.{
  Services, View, IsSession, AfterCommit, committed, store_run, find_run, find_run-store_ne,
}
use global_payments_api.Run.{
  Summary, run_id_of, Ended, new_run, try_run, raise_again, failed_run, handle, started,
  run_daily_reconciliation,
}
use global_payments_api.Run.Outcomes.{TryOutcome, try_run-TryOutcome, store_run-store_run}

-- Every key but one finds the same row as in the view `v`.
abbrev pub KeepsOthers :
    {F A : Type 0} (svc : Services F) → String → View F → A × svc.World → Type 0
KeepsOthers svc id v m =
    (i : String) → (id == i) ≡ false → find_run i (svc.view (m.1)).runs ≡ find_run i v.runs

module _ (fl : Float) (pd : Pandas fl.F) (stamp_text : ℕ → String) (svc : Services fl.F)
    (sess : IsSession svc) (ids : ℕ → ℕ) (to_csv : Frame fl.F → String) (bucket : String) where
  open fl use {F}
  open svc use {World, view}

  store-others :
      (id i : String) (r : ReconciliationRun F) (runs : List (ReconciliationRun F))
      → r.id ≡ id
      → (id == i) ≡ false
      → find_run i (store_run r runs) ≡ find_run i runs
  store-others id i r runs e ne =
      find_run-store_ne i r runs (subst (λ x. (x == i) ≡ false) (sym e) ne)

  raise_again-KeepsOthers :
      (id : String) (v0 u : View F) (exc : Raised) (failed : ReconciliationRun F)
      (m : Result (Unit {0}) × World)
      → failed.id ≡ id
      → ((i : String) → (id == i) ≡ false → find_run i u.runs ≡ find_run i v0.runs)
      → AfterCommit svc (record u { tracked = some failed }) m
      → KeepsOthers svc id v0 (raise_again fl pd stamp_text svc ids to_csv bucket exc m)
  raise_again-KeepsOthers id v0 u exc failed (ok _, w) same kept h i ne =
      ap (λ (y : View F). find_run i y.runs) h ∙ store-others id i failed u.runs same ne ∙ kept i ne
  raise_again-KeepsOthers id v0 u exc failed (err e, w) same kept h i ne =
      ap (find_run i) h.runs ∙ kept i ne

  handle-KeepsOthers :
      (v0 v : View F) (run : ReconciliationRun F) (m : Ended svc (Summary F))
      → ((i : String) → (run.id == i) ≡ false → find_run i v.runs ≡ find_run i v0.runs)
      → TryOutcome fl pd stamp_text svc sess ids to_csv bucket (λ rows. Unit) v run m
      → KeepsOthers svc run.id v0 (handle fl pd stamp_text svc ids to_csv bucket m)
  handle-KeepsOthers v0 v run (ok s, run', w') kept (results, all, built, of, len, done, e) i ne =
      ap (λ (y : View F). find_run i y.runs) e
      ∙ store-others run.id i run' v.runs done.run_id ne
      ∙ kept i ne
  handle-KeepsOthers v0 v run (err exc, run', w') kept (id, runs) i ne =
      let failed = failed_run fl pd stamp_text svc ids to_csv bucket exc (svc.now w') run' in
      raise_again-KeepsOthers run.id v0 (view w') exc failed (svc.commit (svc.set_run failed w')) id
        (λ k off. ap (find_run k) runs ∙ kept k off)
        (subst (λ u. AfterCommit svc u (svc.commit (svc.set_run failed w')))
          (sess.view-set_run failed w') (sess.commit_lem (svc.set_run failed w')))
        i ne

  started-KeepsOthers :
      (v0 u : View F) (run : ReconciliationRun F) (d : Date) (m : Result (Unit {0}) × World)
      → u ≡ record v0 { tracked = some run; fresh = true }
      → AfterCommit svc u m
      → KeepsOthers svc run.id v0 (started fl pd stamp_text svc ids to_csv bucket d run m)
  started-KeepsOthers v0 u run d (err e, w) q h i ne =
      ap (find_run i) h.runs ∙ ap (λ (y : View F). find_run i y.runs) q
  started-KeepsOthers v0 u run d (ok _, w) q h i ne =
      let first = committed (record v0 { tracked = some run; fresh = true }) in
      handle-KeepsOthers v0 first run (try_run fl pd stamp_text svc ids to_csv bucket d run w)
        (λ k off. store-others run.id k run v0.runs refl off)
        (try_run-TryOutcome fl pd stamp_text svc sess ids to_csv bucket (λ rows. Unit) first run d
          (record {
            stored = store_run-store_run run v0.runs;
            inserted = refl;
            nothing_staged = refl;
          })
          w (λ result c. tt) (h ∙ ap committed q))
        i ne

  -- A run of a date, however it ends, leaves the stored rows of the runs with other keys as they were.
  pub run_daily_reconciliation-KeepsOthers :
      (d : Date) (w : World)
      → KeepsOthers svc
          (run_id_of d)
          (view w)
          (run_daily_reconciliation fl pd stamp_text svc ids to_csv bucket d w)
  unfolding run_daily_reconciliation
  run_daily_reconciliation-KeepsOthers d w =
      let run = new_run fl pd stamp_text svc ids to_csv bucket d (svc.now w) in
      started-KeepsOthers (view w) (view (svc.add_run run w)) run d (svc.commit (svc.add_run run w))
        (sess.view-add_run run w) (sess.commit_lem (svc.add_run run w))
