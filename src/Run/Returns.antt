-- ===== src/Run/Returns.antt =====
-- That a run returns, where everything that it calls works.
use global_payments_api.Prelude.{ℕ, String, ◌≡◌, List, All}
use global_payments_api.Persist.{record_of}
use global_payments_api.Reconcile.{reconcile}
use global_payments_api.Python.Raised.{ok}
use global_payments_api.Python.Float.{Float}
use global_payments_api.Python.Date.{Date}
use global_payments_api.Frame.{Row, Frame}
use global_payments_api.Pandas.{Pandas, IsDocumented}
use global_payments_api.Models.{ReconciliationRun, ReconciliationRecord}
use global_payments_api.Services.{Payment, Services, IsSession}
use global_payments_api.Loading.{payments_frame, load_internal_payments, load_clearing_file}
use global_payments_api.Persist.Returns.{IsUp}
use global_payments_api.Run.{Summary, Ended, run_id_of}
use global_payments_api.Run.Storable.{IsFit, CanSum}

module _ (fl : Float) (pd : Pandas fl.F) (stamp_text : ℕ → String) (doc : IsDocumented fl.nan pd)
    (svc : Services fl.F) (ids : ℕ → ℕ) (to_csv : Frame fl.F → String) (bucket : String)
    (sums : CanSum fl pd stamp_text doc) (sess : IsSession svc)
    (Accepts : ReconciliationRecord fl.F → Type 0) (Good : svc.World → Type 0)
    (up : IsUp svc Accepts Good) where
  open fl use {F}
  open svc use {World, view}

  -- What a block returns.
  abbrev pub Completes : Ended svc (Summary F) → Type 0
  Completes m = (s : Summary F) × (run : ReconciliationRun F) × (w : World) × (m ≡ (ok s, run, w))

  -- The database accepts the records of the rows.
  abbrev pub IsAccepted : String → List (Row F) → Type 0
  IsAccepted run_id =
      All
        (λ row. (id : ℕ) (r : ReconciliationRecord F) → record_of run_id id row ≡ ok r → Accepts r)

  -- Both inputs of the run of a date can be read.
  pub record HasInputs (d : Date) : Type 0 where
    pub payments : List Payment
    pub clearing : Frame F
    pub query_up :
        (w : World)
        → Good w
        → (w' : World) × (load_internal_payments fl pd stamp_text svc d w
            ≡ (ok (payments_frame fl pd stamp_text payments), w'))
          × Good w'
    pub file_up :
        (w : World)
        → Good w
        → (w' : World) × (load_clearing_file fl pd stamp_text svc bucket d w ≡ (ok clearing, w'))
          × Good w'
    pub fit : IsFit fl pd stamp_text doc clearing
    -- the database accepts the records of their comparison
    pub accepted :
        (result : Frame F)
        → reconcile fl pd stamp_text (payments_frame fl pd stamp_text payments) clearing ≡ ok result
        → IsAccepted (run_id_of d) result.rows
