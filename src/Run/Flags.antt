-- ===== src/Run/Flags.antt =====
-- The records that are to be investigated, and the counter of exceptions.
use global_payments_api.Prelude.{
  ℕ, suc, String, ◌≡◌, refl, sym, ap, ◌∙◌, Bool, false, Bool-cases, inl, inr, List, [], ◌∷◌, map,
  count_if, All, All-All₂, All-unit,
}
use global_payments_api.Python.Raised.{Result, ok, err, >>=-eq-ok}
use global_payments_api.Python.Float.{Float}
use global_payments_api.Frame.{text, Row, Frame, get, item, is_empty}
use global_payments_api.Pandas.{Pandas, IsDocumented}
use global_payments_api.Models.{ReconciliationRun, ReconciliationRecord}
use global_payments_api.Services.{Services}
use global_payments_api.Reconcile.{reconcile}
use global_payments_api.Reconcile.Cells.{equal_cells}
use global_payments_api.Reconcile.Rows.{IsClassified, classify_all-IsClassified}
use global_payments_api.Persist.{truth, status_cell, record_of}
use global_payments_api.Persist.Outcome.{AllBuilt}
use global_payments_api.Run.{with_counts}

-- The record takes the flag of its row.
record_of-truth :
    {F : Type 0} (run_id : String) (id : ℕ) (row : Row F) (r : ReconciliationRecord F)
    → record_of run_id id row ≡ ok r
    → r.requires_investigation ≡ truth (get "requires_investigation" row)
unfolding record_of
record_of-truth {F} run_id id row r h =
    let (reference, _, h1) = >>=-eq-ok (item "payment_reference" row) _ h in
    let (outcome, _, h2) = >>=-eq-ok (item "status" row) _ h1 in
    let (status, _, h3) = >>=-eq-ok (status_cell outcome) _ h2 in sym (ap flag_of h3)
  where
    flag_of : Result (ReconciliationRecord F) → Bool
    flag_of (ok q) = q.requires_investigation
    flag_of (err e) = false

module _ (fl : Float) (pd : Pandas fl.F) (stamp_text : ℕ → String)
    (doc : IsDocumented fl.nan pd) where
  open fl use {F}

  abbrev IsFlagged : Row F → Type 0
  IsFlagged r =
      truth (get "requires_investigation" r) ≡ equal_cells fl (get "status" r) (text "EXCEPTION")

  verdict-IsFlagged : (m r : Row F) → Unit {0} → IsClassified fl pd stamp_text doc m r → IsFlagged r
  unfolding equal_cells
  verdict-IsFlagged m r u (s, v) = rw (v.status, v.investigate) refl

  reconcile-IsFlagged :
      (internal clearing result : Frame F)
      → is_empty internal ≡ false
      → reconcile fl pd stamp_text internal clearing ≡ ok result
      → All IsFlagged result.rows
  unfolding reconcile
  reconcile-IsFlagged internal clearing result filled h =
      let h' = rw filled at h in
      let (merged, e, q) = >>=-eq-ok (pd.merge _ _ _ internal clearing) _ h' in
      All-All₂ verdict-IsFlagged merged.rows result.rows (All-unit merged.rows)
        (classify_all-IsClassified fl pd stamp_text doc merged result q)

  built_flags :
      (run_id : String) (ids : ℕ → ℕ) (n : ℕ) (rows : List (Row F))
      (all : List (ReconciliationRecord F))
      → AllBuilt run_id ids n rows all
      → All IsFlagged rows
      → count_if (λ r. r.requires_investigation) all
        ≡ count_if (λ c. equal_cells fl c (text "EXCEPTION")) (map (get "status") rows)
  built_flags run_id ids n [] [] b h = refl
  built_flags run_id ids n [] (r ∷ all) b h = absurd b
  built_flags run_id ids n (row ∷ rows) [] b h = absurd b
  built_flags run_id ids n (row ∷ rows) (r ∷ all) (q, b) (f, h) =
      let same = built_flags run_id ids (suc n) rows all b h in
      let flag = record_of-truth run_id (ids n) row r q ∙ f in
      elim (Bool-cases (equal_cells fl (get "status" row) (text "EXCEPTION"))) [
        | inl e ↦ rw (flag ∙ e, e) (ap suc same)
        | inr e ↦ rw (flag ∙ e, e) same
      ]

  module _ (svc : Services F) (ids : ℕ → ℕ) (to_csv : Frame F → String) (bucket : String) where
    -- With pandas as documented, for a comparison that succeeds, of payments that are not an empty
    -- table: the records of its rows that are to be investigated are as many as the exceptions that
    -- the run counts.
    pub with_counts-record_of :
        (internal clearing result : Frame F) (run : ReconciliationRun F) (run_id : String)
        (all : List (ReconciliationRecord F))
        → is_empty internal ≡ false
        → reconcile fl pd stamp_text internal clearing ≡ ok result
        → AllBuilt run_id ids 0 result.rows all
        → count_if (λ r. r.requires_investigation) all
          ≡ (with_counts fl pd stamp_text svc ids to_csv bucket result
              (map (get "status") result.rows)
              run).exception_count
    with_counts-record_of internal clearing result run run_id all filled h built =
        built_flags run_id ids 0 result.rows all built
          (reconcile-IsFlagged internal clearing result filled h)
