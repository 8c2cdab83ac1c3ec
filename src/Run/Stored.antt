-- ===== src/Run/Stored.antt =====
-- The counters of the row that a run stores.
use global_payments_api.Prelude.{List, ℕ, ◌+◌, String, ◌≡◌, some, [], arith}
use global_payments_api.Python.Raised.{Result, ok, err}
use global_payments_api.Python.Float.{Float}
use global_payments_api.Python.Date.{Date}
use global_payments_api.Frame.{Row, Frame}
use global_payments_api.Pandas.{Pandas, IsDocumented}
use global_payments_api.Models.{ReconciliationRun}
use global_payments_api.Services.{Services, IsSession, View, find_run}
use global_payments_api.Run.{Summary, run_id_of, run_daily_reconciliation}
use global_payments_api.Run.Theorems.{RunOutcome, run_daily_reconciliation-RunOutcome}
use global_payments_api.Run.Counts.{AddsUp, run_daily_reconciliation-AddsUp}

-- Where the run with the key `id` returns, its row is stored as COMPLETED, and the counters of that
-- row add up.
abbrev pub StoresTallied :
    (fl : Float) (svc : Services fl.F) → String → Result (Summary fl.F) × svc.World → Type 0
StoresTallied fl svc id (err e, w) = Unit
StoresTallied fl svc id (ok s, w) =
    (r : ReconciliationRun fl.F) × (find_run id (svc.view w).runs ≡ some r)
    × (r.status ≡ "COMPLETED")
    × (r.matched_count + r.unmatched_count + r.exception_count ≡ r.total_records)

module _ (fl : Float) (pd : Pandas fl.F) (stamp_text : ℕ → String) (doc : IsDocumented fl.nan pd)
    (svc : Services fl.F) (sess : IsSession svc) (ids : ℕ → ℕ) (to_csv : Frame fl.F → String)
    (bucket : String) where
  open svc use {World, view}

  outcome-StoresTallied :
      (made : List (Row fl.F) → Type 0) (id : String) (v : View fl.F)
      (m : Result (Summary fl.F) × World)
      → RunOutcome fl svc ids made id v m
      → AddsUp m
      → StoresTallied fl svc id m
  outcome-StoresTallied made id v (err e, w) h sum = tt
  outcome-StoresTallied made id v (ok s, w) (r, results, all, found, done, built, of, len, recs)
        sum =
      (
        r,
        found,
        done.status,
        omega (arith, sum, done.total, done.matched, done.unmatched, done.exceptions),
      )

  -- With pandas as documented, from a session with no records staged: where a run returns, the row
  -- that is stored for it is COMPLETED and its three counters add up to its number of records.
  pub run_daily_reconciliation-StoresTallied :
      (d : Date) (w : World)
      → (view w).staged ≡ []
      → StoresTallied fl svc
          (run_id_of d)
          (run_daily_reconciliation fl pd stamp_text svc ids to_csv bucket d w)
  run_daily_reconciliation-StoresTallied d w idle =
      outcome-StoresTallied _ (run_id_of d) (view w) _
        (run_daily_reconciliation-RunOutcome fl pd stamp_text svc sess ids to_csv bucket d w idle)
        (run_daily_reconciliation-AddsUp fl pd stamp_text doc svc ids to_csv bucket d w)
