-- ===== src/Run/Coverage.antt =====
-- From the table of payments to the stored records: none that the query selects is left out.
use global_payments_api.Prelude.{
  ℕ, String, ◌≡◌, sym, ap, ◌∙◌, Bool, List, [], ◌++◌, All, All-map, Any,
}
use mathlib.Core.Path.{subst}
use global_payments_api.Python.Raised.{Result, ok, err}
use global_payments_api.Python.Float.{Float}
use global_payments_api.Python.Date.{Date}
use global_payments_api.Frame.{Frame}
use global_payments_api.Pandas.{Pandas, IsDocumented}
use global_payments_api.Models.{ReconciliationRecord}
use global_payments_api.Services.{Payment, Services, IsSession, View}
use global_payments_api.Reconcile.{reconcile}
use global_payments_api.Loading.{payments_frame, load_clearing_file}
use global_payments_api.Loading.Query.{IsIn, IsDue, select_payments, select_payments-IsIn}
use global_payments_api.Persist.Outcome.{AllBuilt}
use global_payments_api.Run.{Summary, run_id_of, run_daily_reconciliation}
use global_payments_api.Run.Records.{IsOf}
use global_payments_api.Run.Stand.{Stand, Fits, comparison-Stand}
use global_payments_api.Run.Theorems.{RunOutcome, IsOfDay, run_daily_reconciliation-RunOutcome}

module _ (fl : Float) (pd : Pandas fl.F) (stamp_text : ℕ → String)
    (doc : IsDocumented fl.nan pd) where
  open fl use {F}

  module _ (svc : Services F) (sess : IsSession svc) (ids : ℕ → ℕ) (to_csv : Frame F → String)
      (bucket : String) (date_of : ℕ → Date) (before : String → String → Bool) where
    open svc use {World, view}

    -- The records stand for the payments of the table that are due on the day: each for one, and none
    -- is left out.
    pub record CoversTable (d : Date) (table : List Payment) (all : List (ReconciliationRecord F))
        : Type 0 where
      pub of_payment :
          All
            (λ r.
              (p : Payment) × IsIn p table
              × IsDue date_of before d p
              × IsOf fl pd stamp_text doc (run_id_of d) p r)
            all
      pub has_record :
          (p : Payment)
          → IsIn p table
          → IsDue date_of before d p
          → Any (λ r. IsOf fl pd stamp_text doc (run_id_of d) p r) all

    -- A run that returns has added records that stand for the payments that are due.
    abbrev pub Covers : Date → List Payment → View F → Result (Summary F) × World → Type 0
    Covers d table v (err e, w') = Unit
    Covers d table v (ok s, w') =
        (all : List (ReconciliationRecord F)) × ((view w').records ≡ v.records ++ all)
        × CoversTable d table all

    Stand-CoversTable :
        (d : Date) (table : List Payment) (all : List (ReconciliationRecord F))
        → Stand fl pd stamp_text doc (run_id_of d) (select_payments date_of before d table) all
        → CoversTable d table all
    Stand-CoversTable d table all s = record {
      of_payment =
          All-map
            (λ r (p, i, k).
              let (old, due) = (select_payments-IsIn date_of before d p table).0 i in
              (p, old, due, k))
            all s.of_payment;
      has_record =
          λ p i e. s.has_record p ((select_payments-IsIn date_of before d p table).1 (i, e));
    }

    module _ (d : Date) (table : List Payment)
        (reads : (w w' : World) (ps : List Payment)
          → svc.query_payments d w ≡ (ok ps, w')
          → ps ≡ select_payments date_of before d table)
        (fits : (w w' : World) (clearing : Frame F)
          → load_clearing_file fl pd stamp_text svc bucket d w ≡ (ok clearing, w')
          → Fits fl pd stamp_text doc (select_payments date_of before d table) clearing) where
      outcome-Covers :
          (v : View F) (m : Result (Summary F) × World)
          → RunOutcome fl svc ids (IsOfDay fl pd stamp_text svc bucket d) (run_id_of d) v m
          → Covers d table v m
      outcome-Covers v (err e, w') h = tt
      outcome-Covers v (ok s, w') (r, rows, all, found, done, built, (w, result, c, e), len, recs) =
          let same = reads w c.queried c.payments c.query in
          (
            all,
            recs,
            Stand-CoversTable d table all (
                comparison-Stand fl pd stamp_text doc (run_id_of d) ids
                  (select_payments date_of before d table) c.clearing result all
                  (fits c.queried c.loaded c.clearing c.file)
                  (sym (
                      ap
                        (λ ps.
                          reconcile fl pd stamp_text (payments_frame fl pd stamp_text ps)
                            c.clearing)
                        same)
                    ∙ c.comparison)
                  (subst (λ l. AllBuilt (run_id_of d) ids 0 l all) (sym e) built)),
          )

      -- With pandas as documented, where the query of the day gives what its SQL selects of a table of
      -- payments, and the clearing file of the day can be merged with these payments and has none of
      -- their own columns: from a session with no records staged, a run that returns has added records
      -- such that each has the run's key and the cells of a payment of the table that is COMPLETED or
      -- FAILED and of that day at UTC, and each such payment has a record.
      pub run_daily_reconciliation-Covers :
          (w : World)
          → (view w).staged ≡ []
          → Covers d table
              (view w)
              (run_daily_reconciliation fl pd stamp_text svc ids to_csv bucket d w)
      run_daily_reconciliation-Covers w idle =
          outcome-Covers (view w) _ (
            run_daily_reconciliation-RunOutcome fl pd stamp_text svc sess ids to_csv bucket d w
              idle)
