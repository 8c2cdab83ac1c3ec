-- ===== src/Run/Additions.antt =====
-- What a run adds to the table of records, on every path.
use mathlib.Core.Path.{subst}
use mathlib.Core.List.{append-nil}
use global_payments_api.Prelude.{
  ℕ, suc, true, String, ◌≡◌, refl, sym, ap, ◌∙◌, List, [], ◌∷◌, ◌++◌, some, All, All-All₂, All-unit,
}
use global_payments_api.Python.Raised.{Raised, Result, ok, err}
use global_payments_api.Python.Float.{Float}
use global_payments_api.Python.Date.{Date}
use global_payments_api.Frame.{Cell, Row, Frame}
use global_payments_api.Pandas.{Pandas}
use global_payments_api.Models.{ReconciliationRun, ReconciliationRecord}
use global_payments_api.Services.{Services, View, IsSession, AfterCommit, committed}
use global_payments_api.Persist.{persist_results}
use global_payments_api.Persist.Outcome.{IsIdle, AllBuilt, FirstBuilt, PersistOutcome}
use global_payments_api.Persist.Batches.{persist_results-PersistOutcome}
use global_payments_api.Reconcile.{reconcile}
use global_payments_api.Loading.{column, load_internal_payments, load_clearing_file}
use global_payments_api.Run.{
  Summary, Ended, run_id_of, new_run, total_amount, upload_report, report_run, with_counts,
  with_total, commit_total, count_and_commit, complete_run, compare_and_store, compare_with,
  load_and_compare, try_run, raise_again, failed_run, handle, started, run_daily_reconciliation,
}
use global_payments_api.Run.Effects.{view-load_internal_payments, view-load_clearing_file}
use global_payments_api.Run.Outcomes.{store_run-store_run}
use global_payments_api.Run.Records.{record_of-HasCells, AllBuilt-HasCells}

abbrev pub IsOwn : {F : Type 0} → String → ReconciliationRecord F → Type 0
IsOwn id r = r.reconciliation_run_id ≡ id

-- The committed records are those of a view and some more with the key `id`; none is staged.
pub record Adds {F : Type 0} (id : String) (v u : View F) : Type 0 where
  pub new : List (ReconciliationRecord F)
  pub own : All (IsOwn id) new
  pub records : u.records ≡ v.records ++ new
  pub nothing_staged : u.staged ≡ []

module _ {F : Type 0} (id : String) where
  pub AllBuilt-IsOwn :
      (ids : ℕ → ℕ) (n : ℕ) (rows : List (Row F)) (all : List (ReconciliationRecord F))
      → AllBuilt id ids n rows all
      → All (IsOwn id) all
  AllBuilt-IsOwn ids n rows all built =
      All-All₂ (λ row r u h. h.run) rows all (All-unit rows)
        (AllBuilt-HasCells id ids n rows all built)

  FirstBuilt-IsOwn :
      (ids : ℕ → ℕ) (n : ℕ) (rows : List (Row F)) (saved : List (ReconciliationRecord F))
      → FirstBuilt id ids n rows saved
      → All (IsOwn id) saved
  FirstBuilt-IsOwn ids n rows [] built = tt
  FirstBuilt-IsOwn ids n [] (r ∷ rs) built = absurd built
  FirstBuilt-IsOwn ids n (row ∷ rows) (r ∷ rs) (e, built) =
      ((record_of-HasCells id (ids n) row r e).run, FirstBuilt-IsOwn ids (suc n) rows rs built)

  Adds-none : (v : View F) → v.staged ≡ [] → Adds id v v
  Adds-none v idle = record {
    new = [];
    own = tt;
    records = sym (append-nil v.records);
    nothing_staged = idle;
  }

  -- The same records under another view.
  Adds-same : (v u x : View F) → Adds id v u → x.records ≡ u.records → x.staged ≡ [] → Adds id v x
  Adds-same v u x a e idle = record {
    new = a.new;
    own = a.own;
    records = e ∙ a.records;
    nothing_staged = idle;
  }

  Adds-committed : (v u : View F) → Adds id v u → Adds id v (committed u)
  Adds-committed v u a =
      Adds-same v u (committed u) a
        (ap (λ l. u.records ++ l) a.nothing_staged ∙ append-nil u.records) refl

  -- A commit, whether it fails or not.
  commit-Adds :
      (svc : Services F) (v u : View F) (m : Result (Unit {0}) × svc.World)
      → Adds id v u
      → AfterCommit svc u m
      → Adds id v (svc.view (m.1))
  commit-Adds svc v u (ok x, w) a h = subst (Adds id v) (sym h) (Adds-committed v u a)
  commit-Adds svc v u (err e, w) a h = Adds-same v u (svc.view w) a h.records h.nothing_staged

  persist-Adds :
      (svc : Services F) (ids : ℕ → ℕ) (rows : List (Row F)) (v : View F)
      (m : Result (Unit {0}) × svc.World)
      → v.staged ≡ []
      → PersistOutcome svc id ids rows v m
      → Adds id v (svc.view (m.1))
  persist-Adds svc ids rows v (ok x, w) idle (all, built, e) = record {
    new = all;
    own = AllBuilt-IsOwn ids 0 rows all built;
    records = ap (λ (y : View F). y.records) e;
    nothing_staged = ap (λ (y : View F). y.staged) e ∙ idle;
  }
  persist-Adds svc ids rows v (err x, w) idle (saved, k, built, len, same) = record {
    new = saved;
    own = FirstBuilt-IsOwn ids 0 rows saved built;
    records = same.records;
    nothing_staged = same.nothing_staged;
  }

module _ (fl : Float) (pd : Pandas fl.F) (stamp_text : ℕ → String) (svc : Services fl.F)
    (sess : IsSession svc) (ids : ℕ → ℕ) (to_csv : Frame fl.F → String) (bucket : String) where
  open fl use {F}
  open svc use {World, view}

  -- The commit of a run object that was changed.
  set_run-Adds :
      (id : String) (v : View F) (r : ReconciliationRun F) (w : World)
      → Adds id v (view w)
      → Adds id v (view (svc.commit (svc.set_run r w)).1)
  set_run-Adds id v r w a =
      commit-Adds id svc v (view (svc.set_run r w)) (svc.commit (svc.set_run r w))
        (subst (Adds id v) (sym (sess.view-set_run r w))
          (Adds-same id v (view w) (record (view w) { tracked = some r }) a refl a.nothing_staged))
        (sess.commit_lem (svc.set_run r w))

  module _ (id : String) (v : View F) (d : Date) (run : ReconciliationRun F) where
    report_run-Adds :
        (results_df : Frame F) (done : ReconciliationRun F) (m : Result (Unit {0}) × World)
        → Adds id v (view (m.1))
        → Adds id v (view (report_run fl pd stamp_text svc ids to_csv bucket results_df d done m).2)
    unfolding upload_report
    report_run-Adds results_df done (err e, w) a = a
    report_run-Adds results_df done (ok u, w) a = subst (Adds id v) (sym (sess.view-put _ _ _ w)) a

    commit_total-Adds :
        (results_df : Frame F) (counted : ReconciliationRun F) (total : Result F) (w : World)
        → Adds id v (view w)
        → Adds id v (
            view
              (commit_total fl pd stamp_text svc ids to_csv bucket results_df d counted total w).2)
    commit_total-Adds results_df counted (err e) w a = a
    commit_total-Adds results_df counted (ok total) w a =
        let done = with_total fl pd stamp_text svc ids to_csv bucket total (svc.now w) counted in
        report_run-Adds results_df done (svc.commit (svc.set_run done w))
          (set_run-Adds id v done w a)

    count_and_commit-Adds :
        (results_df : Frame F) (statuses : Result (List (Cell F))) (w : World)
        → Adds id v (view w)
        → Adds id v (
            view
              (count_and_commit fl pd stamp_text svc ids to_csv bucket results_df d run statuses
                w).2)
    count_and_commit-Adds results_df (err e) w a = a
    count_and_commit-Adds results_df (ok statuses) w a =
        commit_total-Adds results_df
          (with_counts fl pd stamp_text svc ids to_csv bucket results_df statuses run)
          (total_amount fl pd stamp_text svc ids to_csv bucket results_df) w a

    complete_run-Adds :
        (results_df : Frame F) (m : Result (Unit {0}) × World)
        → Adds id v (view (m.1))
        → Adds id v
            (view (complete_run fl pd stamp_text svc ids to_csv bucket results_df d run m).2)
    unfolding complete_run
    complete_run-Adds results_df (err e, w) a = a
    complete_run-Adds results_df (ok u, w) a =
        count_and_commit-Adds results_df (column "status" results_df) w a

  module _ (v : View F) (d : Date) (run : ReconciliationRun F) (idle : IsIdle v) where
    compare_and_store-Adds :
        (r : Result (Frame F)) (w : World)
        → view w ≡ v
        → Adds run.id v
            (view (compare_and_store fl pd stamp_text svc ids to_csv bucket d run r w).2)
    compare_and_store-Adds (err e) w q =
        subst (Adds run.id v) (sym q) (Adds-none run.id v idle.nothing_staged)
    compare_and_store-Adds (ok results_df) w q =
        let m = persist_results svc ids results_df run.id w in
        complete_run-Adds run.id v d run results_df m (
          persist-Adds run.id svc ids results_df.rows v m idle.nothing_staged (
            subst (λ u. PersistOutcome svc run.id ids results_df.rows u m) q
              (persist_results-PersistOutcome svc sess ids results_df run.id w
                (subst IsIdle (sym q) idle))))

    compare_with-Adds :
        (internal_df : Frame F) (m : Result (Frame F) × World)
        → view m.1 ≡ v
        → Adds run.id v
            (view (compare_with fl pd stamp_text svc ids to_csv bucket d run internal_df m).2)
    compare_with-Adds internal_df (err e, w) q =
        subst (Adds run.id v) (sym q) (Adds-none run.id v idle.nothing_staged)
    compare_with-Adds internal_df (ok clearing_df, w) q =
        compare_and_store-Adds (reconcile fl pd stamp_text internal_df clearing_df) w q

    load_and_compare-Adds :
        (m : Result (Frame F) × World)
        → view m.1 ≡ v
        → Adds run.id v (view (load_and_compare fl pd stamp_text svc ids to_csv bucket d run m).2)
    load_and_compare-Adds (err e, w) q =
        subst (Adds run.id v) (sym q) (Adds-none run.id v idle.nothing_staged)
    load_and_compare-Adds (ok internal_df, w) q =
        compare_with-Adds internal_df (load_clearing_file fl pd stamp_text svc bucket d w)
          (view-load_clearing_file fl pd stamp_text svc sess bucket d w ∙ q)

    try_run-Adds :
        (w : World)
        → view w ≡ v
        → Adds run.id v (view (try_run fl pd stamp_text svc ids to_csv bucket d run w).2)
    unfolding try_run
    try_run-Adds w q =
        load_and_compare-Adds (load_internal_payments fl pd stamp_text svc d w)
          (view-load_internal_payments fl pd stamp_text svc sess d w ∙ q)

  raise_again-Adds :
      (id : String) (v : View F) (exc : Raised) (m : Result (Unit {0}) × World)
      → Adds id v (view (m.1))
      → Adds id v (view (raise_again fl pd stamp_text svc ids to_csv bucket exc m).1)
  raise_again-Adds id v exc (ok u, w) a = a
  raise_again-Adds id v exc (err e, w) a = a

  handle-Adds :
      (id : String) (v : View F) (m : Ended svc (Summary F))
      → Adds id v (view m.2)
      → Adds id v (view (handle fl pd stamp_text svc ids to_csv bucket m).1)
  handle-Adds id v (ok s, run, w) a = a
  handle-Adds id v (err exc, run, w) a =
      let failed = failed_run fl pd stamp_text svc ids to_csv bucket exc (svc.now w) run in
      raise_again-Adds id v exc (svc.commit (svc.set_run failed w)) (set_run-Adds id v failed w a)

  started-Adds :
      (v0 u : View F) (run : ReconciliationRun F) (d : Date) (m : Result (Unit {0}) × World)
      → v0.staged ≡ []
      → u ≡ record v0 { tracked = some run; fresh = true }
      → AfterCommit svc u m
      → Adds run.id v0 (view (started fl pd stamp_text svc ids to_csv bucket d run m).1)
  started-Adds v0 u run d (err e, w) idle q h =
      Adds-same run.id v0 v0 (view w) (Adds-none run.id v0 idle)
        (h.records ∙ ap (λ (y : View F). y.records) q) h.nothing_staged
  started-Adds v0 u run d (ok _, w) idle q h =
      let first = committed (record v0 { tracked = some run; fresh = true }) in
      let ended = try_run fl pd stamp_text svc ids to_csv bucket d run w in
      let a =
        try_run-Adds first d run
          (record {
            stored = store_run-store_run run v0.runs;
            inserted = refl;
            nothing_staged = refl;
          })
          w (h ∙ ap committed q) in
      handle-Adds run.id v0 ended (record {
        new = a.new;
        own = a.own;
        records =
            a.records
            ∙ ap (λ l. (v0.records ++ l) ++ a.new) idle
            ∙ ap (λ l. l ++ a.new) (append-nil v0.records);
        nothing_staged = a.nothing_staged;
      })

  -- From a session with no records staged, a run, however it ends, only adds records with its own key
  -- behind those that were there, and leaves none staged.
  pub run_daily_reconciliation-Adds :
      (d : Date) (w : World)
      → (view w).staged ≡ []
      → Adds
          (run_id_of d)
          (view w)
          (view (run_daily_reconciliation fl pd stamp_text svc ids to_csv bucket d w).1)
  unfolding run_daily_reconciliation
  run_daily_reconciliation-Adds d w idle =
      let run = new_run fl pd stamp_text svc ids to_csv bucket d (svc.now w) in
      started-Adds (view w) (view (svc.add_run run w)) run d (svc.commit (svc.add_run run w)) idle
        (sess.view-add_run run w) (sess.commit_lem (svc.add_run run w))
