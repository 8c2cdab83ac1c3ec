-- ===== src/Schema/Required.antt =====
-- The records of a run against the columns of their table that may not be null.
use global_payments_api.Prelude.{
  ◌and◌, ℕ, String, ◌==◌, ◌≡◌, refl, ap, ◌∙◌, Bool, true, false, List, ◌∷◌, All, All-All₂, All-unit,
  Option, if◌then◌else◌,
}
use global_payments_api.Python.Raised.{ok}
use global_payments_api.Python.Float.{Float}
use global_payments_api.Frame.{Cell, null, stamp, flag, Row, Frame}
use global_payments_api.Pandas.{Pandas, IsDocumented, CanMerge, left_pairs}
use global_payments_api.Models.{ReconciliationRecord}
use global_payments_api.Services.{Payment}
use global_payments_api.Reconcile.{reconcile}
use global_payments_api.Reconcile.Suffix.{key}
use global_payments_api.Loading.{payments_frame}
use global_payments_api.Persist.Outcome.{AllBuilt}
use global_payments_api.Run.Compared.{IsSeparate}
use global_payments_api.Run.Records.{IsOfPair, reconcile-IsOfPair}
use global_payments_api.Schema.{record_columns}

abbrev is_null : {F : Type 0} → Cell F → Bool
is_null null = true
is_null _ = false

-- What is written to a column. Those that hold no cell of a table are set in every record.
unfoldable pub cell_of : {F : Type 0} → String → ReconciliationRecord F → Cell F
cell_of c r =
    if c == "payment_reference"
    then r.payment_reference
    else if c == "payment_id"
    then r.payment_id
    else if c == "internal_amount"
    then r.internal_amount
    else if c == "internal_currency"
    then r.internal_currency
    else if c == "internal_status"
    then r.internal_status
    else if c == "internal_created_at"
    then r.internal_created_at
    else if c == "clearing_amount"
    then r.clearing_amount
    else if c == "clearing_currency"
    then r.clearing_currency
    else if c == "clearing_reference"
    then r.clearing_reference
    else if c == "clearing_status"
    then r.clearing_status
    else if c == "clearing_settled_at"
    then r.clearing_settled_at
    else if c == "discrepancy_amount"
    then r.discrepancy_amount
    else if c == "notes"
    then r.notes
    else flag true

-- No column that may not be null is null.
abbrev pub IsComplete : {F : Type 0} → ReconciliationRecord F → Type 0
IsComplete r =
    All (λ col. col.nullable ≡ false → is_null (cell_of col.name r) ≡ false) record_columns

module _ (fl : Float) (pd : Pandas fl.F) (stamp_text : ℕ → String) (doc : IsDocumented fl.nan pd)
    (converted : (t : ℕ) → is_null (pd.to_utc (stamp t)) ≡ false) where
  open fl use {F}

  pair-IsComplete :
      (run_id : String) (pair : Row F × Option (Row F)) (r : ReconciliationRecord F)
      → Unit {0}
      → IsOfPair fl pd stamp_text doc run_id pair r
      → IsComplete r
  unfolding cell_of
  pair-IsComplete run_id pair r u (p, e, h) =
      (λ q. refl)
      and (λ q. ap is_null h.payment_reference)
      and (λ q. ap is_null h.payment_id)
      and (λ q. ap is_null h.internal_amount)
      and (λ q. ap is_null h.internal_currency)
      and (λ q. ap is_null h.internal_status)
      and (λ q. ap is_null h.internal_created_at ∙ converted p.created_at)
      and (λ q. cc)
      and (λ q. cc)
      and (λ q. cc)
      and (λ q. cc)
      and (λ q. cc)
      and (λ q. refl)
      and (λ q. cc)
      and (λ q. cc)
      and (λ q. refl)
      and (λ q. cc)
      and (λ q. cc)
      and tt

  -- With pandas as documented, where a time of creation never converts to null, a merge with the
  -- clearing file is possible and that has none of the columns that are the payments' own: the records
  -- of a comparison of some payments that succeeds leave no column null that the migration declares as
  -- not null.
  pub reconcile-IsComplete :
      (clearing : Frame F)
      → IsSeparate fl pd stamp_text doc clearing
      → (run_id : String) (p : Payment) (ps : List Payment) (result : Frame F) (ids : ℕ → ℕ)
        (all : List (ReconciliationRecord F))
      → CanMerge key "_internal" "_clearing" (payments_frame fl pd stamp_text (p ∷ ps)) clearing
      → reconcile fl pd stamp_text (payments_frame fl pd stamp_text (p ∷ ps)) clearing ≡ ok result
      → AllBuilt run_id ids 0 result.rows all
      → All IsComplete all
  reconcile-IsComplete clearing apart run_id p ps result ids all can h built =
      let pairs = left_pairs key (payments_frame fl pd stamp_text (p ∷ ps)).rows clearing.rows in
      All-All₂ (pair-IsComplete run_id) pairs all (All-unit pairs) (
        reconcile-IsOfPair fl pd stamp_text doc clearing apart run_id p ps result ids all can h
          built)
