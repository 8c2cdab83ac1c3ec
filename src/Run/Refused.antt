-- ===== src/Run/Refused.antt =====
-- A run whose records, or whose own row, the database refuses.
use global_payments_api.Prelude.{
  ℕ, suc, ◌+◌, ◌≤◌, String, ◌≡◌, ap, ◌∙◌, true, Bool-cases, inl, inr, List, [], ◌∷◌, ◌++◌, some,
  arith, length, length-append, leb,
}
use global_payments_api.Python.Raised.{Raised, Result, ok, err, Exec}
use global_payments_api.Python.Float.{Float}
use global_payments_api.Python.Date.{Date}
use global_payments_api.Frame.{Row, Frame}
use global_payments_api.Pandas.{Pandas}
use global_payments_api.Models.{ReconciliationRun, ReconciliationRecord}
use global_payments_api.Services.{
  Services, View, IsSession, SameStored, AfterBulkSave, AfterCommit, Fails, find_run,
}
use global_payments_api.Persist.{
  batch_size, then_commit, save_batch, flush_rest, after_batch, persist_rows, persist_results,
}
use global_payments_api.Persist.Outcome.{AllBuilt}
use global_payments_api.Run.{
  run_id_of, new_run, complete_run, raise_again, failed_run, handle, started,
  run_daily_reconciliation,
}

-- The call has failed, the tables are as before, and the session waits for a rollback.
abbrev pub IsStuck : {F A : Type 0} (svc : Services F) → View F → Result A × svc.World → Type 0
IsStuck svc v (ok a, w) = ⊥
IsStuck svc v (err e, w) = SameStored v (svc.view w) × (svc.needs_rollback w ≡ true)

module _ {F : Type 0} (svc : Services F) (sess : IsSession svc) (run_id : String) (ids : ℕ → ℕ)
    (refuses : (rs : List (ReconciliationRecord F)) (w : svc.World)
      → Fails (svc.bulk_save rs w)) where
  open svc use {World, view}

  then_commit-IsStuck :
      (rs : List (ReconciliationRecord F)) (v : View F) (m : Result (Unit {0}) × World)
      → AfterBulkSave svc rs v m
      → Fails m
      → IsStuck svc v (then_commit svc m)
  then_commit-IsStuck rs v (ok u, w) h f = absurd f
  then_commit-IsStuck rs v (err e, w) h f = h

  save_batch-IsStuck :
      (rs : List (ReconciliationRecord F)) (w : World) → IsStuck svc (view w) (save_batch svc rs w)
  unfolding save_batch
  save_batch-IsStuck rs w =
      then_commit-IsStuck rs (view w) (svc.bulk_save rs w) (sess.bulk_save_lem rs w) (refuses rs w)

  after_batch-IsStuck :
      (v : View F) (m : Result (Unit {0}) × World) (rest : Exec World (Unit {0}))
      → IsStuck svc v m
      → IsStuck svc v (after_batch svc m rest)
  after_batch-IsStuck v (ok u, w) rest h = absurd h
  after_batch-IsStuck v (err e, w) rest h = h

  flush_rest-IsStuck :
      (buffer : List (ReconciliationRecord F)) (w : World)
      → 1 ≤ length buffer
      → IsStuck svc (view w) (flush_rest svc buffer w)
  unfolding save_batch
  flush_rest-IsStuck [] w h = absurd (omega arith)
  flush_rest-IsStuck (r ∷ rs) w h = save_batch-IsStuck (r ∷ rs) w

  persist_rows-IsStuck :
      (n : ℕ) (rows : List (Row F)) (all buffer : List (ReconciliationRecord F)) (w : World)
      → AllBuilt run_id ids n rows all
      → 1 ≤ length buffer + length rows
      → IsStuck svc (view w) (persist_rows svc batch_size run_id ids n rows buffer w)
  unfolding persist_rows
  persist_rows-IsStuck n [] [] buffer w built h = flush_rest-IsStuck buffer w (omega arith)
  persist_rows-IsStuck n [] (r ∷ all) buffer w built h = absurd built
  persist_rows-IsStuck n (row ∷ rows) [] buffer w built h = absurd built
  persist_rows-IsStuck n (row ∷ rows) (r ∷ all) buffer w (e, built) h =
      rw e (elim (Bool-cases (leb batch_size (length (buffer ++ r ∷ [])))) [
        | inl full ↦ rw full (
            after_batch-IsStuck (view w) (save_batch svc (buffer ++ r ∷ []) w) _
              (save_batch-IsStuck (buffer ++ r ∷ []) w))
        | inr waiting ↦ rw waiting (
            persist_rows-IsStuck (suc n) rows all (buffer ++ r ∷ []) w built
              (omega (arith, length-append buffer (r ∷ []))))
      ])

-- The handler, too, has failed and the tables are as before.
abbrev pub IsLost : {F A : Type 0} (svc : Services F) → View F → Result A × svc.World → Type 0
IsLost svc v (ok a, w) = ⊥
IsLost svc v (err e, w) = SameStored v (svc.view w)

module _ (fl : Float) (pd : Pandas fl.F) (stamp_text : ℕ → String) (svc : Services fl.F)
    (sess : IsSession svc) (ids : ℕ → ℕ) (to_csv : Frame fl.F → String) (bucket : String) where
  open fl use {F}
  open svc use {World, view}

  raise_again-IsLost :
      (v u : View F) (exc : Raised) (m : Result (Unit {0}) × World)
      → SameStored v u
      → AfterCommit svc u m
      → Fails m
      → IsLost svc v (raise_again fl pd stamp_text svc ids to_csv bucket exc m)
  raise_again-IsLost v u exc (ok _, w) h k f = absurd f
  raise_again-IsLost v u exc (err e, w) h k f = record {
    runs = k.runs ∙ h.runs;
    records = k.records ∙ h.records;
    nothing_staged = k.nothing_staged;
  }

  handle-IsLost :
      (v : View F) (run : ReconciliationRun F) (results_df : Frame F) (d : Date)
      (m : Result (Unit {0}) × World)
      → IsStuck svc v m
      → IsLost svc v (
          handle fl pd stamp_text svc ids to_csv bucket
            (complete_run fl pd stamp_text svc ids to_csv bucket results_df d run m))
  unfolding complete_run
  handle-IsLost v run results_df d (ok u, w) h = absurd h
  handle-IsLost v run results_df d (err exc, w) (same, blocked) =
      let failed = failed_run fl pd stamp_text svc ids to_csv bucket exc (svc.now w) run in
      let w1 = svc.set_run failed w in
      raise_again-IsLost v (view w1) exc (svc.commit w1)
        (record {
          runs = ap (λ (y : View F). y.runs) (sess.view-set_run failed w) ∙ same.runs;
          records = ap (λ (y : View F). y.records) (sess.view-set_run failed w) ∙ same.records;
          nothing_staged =
              ap (λ (y : View F). y.staged) (sess.view-set_run failed w) ∙ same.nothing_staged;
        })
        (sess.commit_lem w1) (sess.commit_blocked w1 (sess.rollback-set_run failed w ∙ blocked))

  -- If the database refuses every bulk insert, then a comparison with at least one row, of which
  -- all can be made into records, ends in an exception with both tables as they were before the
  -- insert: the handler's commit is refused as well, and the run is not marked as failed.
  pub refused_run_is_not_failed :
      ((rs : List (ReconciliationRecord F)) (w : World) → Fails (svc.bulk_save rs w))
      → (run : ReconciliationRun F) (results_df : Frame F) (d : Date)
        (all : List (ReconciliationRecord F)) (w : World)
      → AllBuilt run.id ids 0 results_df.rows all
      → 1 ≤ length results_df.rows
      → IsLost svc (view w) (
          handle fl pd stamp_text svc ids to_csv bucket (
            complete_run fl pd stamp_text svc ids to_csv bucket results_df d run
              (persist_results svc ids results_df run.id w)))
  unfolding persist_results
  refused_run_is_not_failed refuses run results_df d all w built some_row =
      handle-IsLost (view w) run results_df d (persist_results svc ids results_df run.id w) (
        persist_rows-IsStuck svc sess run.id ids refuses 0 results_df.rows all [] w built
          (omega arith))

  started-IsLost :
      (v u : View F) (run : ReconciliationRun F) (d : Date) (m : Result (Unit {0}) × World)
      → u ≡ record v { tracked = some run; fresh = true }
      → AfterCommit svc u m
      → Fails m
      → IsLost svc v (started fl pd stamp_text svc ids to_csv bucket d run m)
  started-IsLost v u run d (ok _, w) e h f = absurd f
  started-IsLost v u run d (err x, w) e h f = record {
    runs = h.runs ∙ ap (λ (y : View F). y.runs) e;
    records = h.records ∙ ap (λ (y : View F). y.records) e;
    nothing_staged = h.nothing_staged;
  }

  -- A second run for a date whose run is stored raises, and leaves both tables as they were: the
  -- stored run keeps its status.
  pub second_run_raises :
      (d : Date) (w : World) (r : ReconciliationRun F)
      → find_run (run_id_of d) (view w).runs ≡ some r
      → IsLost svc (view w) (run_daily_reconciliation fl pd stamp_text svc ids to_csv bucket d w)
  unfolding run_daily_reconciliation
  second_run_raises d w r e =
      let run = new_run fl pd stamp_text svc ids to_csv bucket d (svc.now w) in
      let w1 = svc.add_run run w in
      let q = sess.view-add_run run w in
      started-IsLost (view w) (view w1) run d (svc.commit w1) q (sess.commit_lem w1) (
        sess.commit_clash w1 run r (ap (λ (y : View F). y.tracked) q)
          (ap (λ (y : View F). y.fresh) q)
          (ap (λ (y : View F). find_run (run_id_of d) y.runs) q ∙ e))
