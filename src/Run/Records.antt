-- ===== src/Run/Records.antt =====
-- What the records of a run hold: the cells of a payment, and of one of its clearing records.
use mathlib.Core.Path.{subst}
use global_payments_api.Prelude.{
  ℕ, suc, String, ◌≡◌, refl, sym, ◌∙◌, inl, inr, List, [], ◌∷◌, Option, All₂, All₂-compose,
  Option-cases,
}
use global_payments_api.Python.Raised.{ok, err, >>=-eq-ok}
use global_payments_api.Python.Decimal.{of_minor_units}
use global_payments_api.Python.Float.{Float}
use global_payments_api.Frame.{Cell, text, decimal, stamp, Row, Frame, lookup, get, item}
use global_payments_api.Pandas.{Pandas, IsDocumented, CanMerge, left_pairs}
use global_payments_api.Models.{ReconciliationRecord}
use global_payments_api.Services.{Payment}
use global_payments_api.Reconcile.{reconcile}
use global_payments_api.Reconcile.Suffix.{key}
use global_payments_api.Loading.{payment_row, payments_frame}
use global_payments_api.Persist.{status_cell, record_of}
use global_payments_api.Persist.Outcome.{AllBuilt}
use global_payments_api.Run.Compared.{IsSeparate, IsRowOfPair, reconcile-IsRowOfPair}

item-get : {F : Type 0} (c : String) (r : Row F) (v : Cell F) → item c r ≡ ok v → get c r ≡ v
unfolding item get
item-get c r v h = elim (Option-cases (lookup c r)) [
  | inl e ↦ absurd (no_cell (rw e at h))
  | inr (w, e) ↦ rw e (ok_cell (rw e at h))
]
  where
    no_cell : {e : _} → ¬ (err e ≡ ok v)
    no_cell e = cc

    ok_cell : {w : _} → ok w ≡ ok v → w ≡ v
    ok_cell e = cc

-- The cells that a record takes from its row.
pub record HasCells {F : Type 0} (run_id : String) (row : Row F) (r : ReconciliationRecord F)
    : Type 0 where
  payment_reference : r.payment_reference ≡ get "payment_reference" row
  payment_id : r.payment_id ≡ get "payment_id" row
  internal_amount : r.internal_amount ≡ get "internal_amount" row
  internal_currency : r.internal_currency ≡ get "internal_currency" row
  internal_status : r.internal_status ≡ get "internal_status" row
  internal_created_at : r.internal_created_at ≡ get "internal_created_at" row
  pub run : r.reconciliation_run_id ≡ run_id

pub record_of-HasCells :
    {F : Type 0} (run_id : String) (id : ℕ) (row : Row F) (r : ReconciliationRecord F)
    → record_of run_id id row ≡ ok r
    → HasCells run_id row r
unfolding record_of
record_of-HasCells {F} run_id id row r h =
    let (reference, e, h1) = >>=-eq-ok (item "payment_reference" row) _ h in
    let (outcome, _, h2) = >>=-eq-ok (item "status" row) _ h1 in
    let (status, _, h3) = >>=-eq-ok (status_cell outcome) _ h2 in
    subst (HasCells run_id row) (ok_record h3) (record {
      payment_reference = sym (item-get "payment_reference" row reference e);
      payment_id = refl;
      internal_amount = refl;
      internal_currency = refl;
      internal_status = refl;
      internal_created_at = refl;
      run = refl;
    })
  where
    ok_record : {a b : ReconciliationRecord F} → ok a ≡ ok b → a ≡ b
    ok_record e = cc

pub AllBuilt-HasCells :
    {F : Type 0} (run_id : String) (ids : ℕ → ℕ) (n : ℕ) (rows : List (Row F))
    (all : List (ReconciliationRecord F))
    → AllBuilt run_id ids n rows all
    → All₂ (HasCells run_id) rows all
AllBuilt-HasCells run_id ids n [] [] b = tt
AllBuilt-HasCells run_id ids n [] (r ∷ all) b = absurd b
AllBuilt-HasCells run_id ids n (row ∷ rows) [] b = absurd b
AllBuilt-HasCells run_id ids n (row ∷ rows) (r ∷ all) (e, b) =
    (record_of-HasCells run_id (ids n) row r e, AllBuilt-HasCells run_id ids (suc n) rows all b)

module _ (fl : Float) (pd : Pandas fl.F) (stamp_text : ℕ → String)
    (doc : IsDocumented fl.nan pd) where
  open fl use {F}

  -- A record has the cells of a payment.
  pub record IsOf (run_id : String) (p : Payment) (r : ReconciliationRecord F) : Type 0 where
    pub payment_reference : r.payment_reference ≡ text p.payment_reference
    pub payment_id : r.payment_id ≡ text p.payment_id
    pub internal_amount : r.internal_amount ≡ decimal (of_minor_units p.amount_minor_units)
    pub internal_currency : r.internal_currency ≡ text p.currency
    pub internal_status : r.internal_status ≡ text p.status
    pub internal_created_at : r.internal_created_at ≡ pd.to_utc (stamp p.created_at)
    pub run : r.reconciliation_run_id ≡ run_id

  -- The record stands for the payment whose row is on the left of its pair.
  abbrev pub IsOfPair : String → Row F × Option (Row F) → ReconciliationRecord F → Type 0
  IsOfPair run_id pair r =
      (p : Payment) × (pair.0 ≡ payment_row fl pd stamp_text p) × IsOf run_id p r

  pair-IsOfPair :
      (run_id : String) (pair : Row F × Option (Row F)) (row : Row F) (r : ReconciliationRecord F)
      → IsRowOfPair fl pd stamp_text doc pair row
      → HasCells run_id row r
      → IsOfPair run_id pair r
  pair-IsOfPair run_id pair row r (p, e, c) h = (
    p,
    e,
    record {
      payment_reference = h.payment_reference ∙ c.payment_reference;
      payment_id = h.payment_id ∙ c.payment_id;
      internal_amount = h.internal_amount ∙ c.internal_amount;
      internal_currency = h.internal_currency ∙ c.internal_currency;
      internal_status = h.internal_status ∙ c.internal_status;
      internal_created_at = h.internal_created_at ∙ c.internal_created_at;
      run = h.run;
    },
  )

  module _ (clearing : Frame F) (apart : IsSeparate fl pd stamp_text doc clearing)
      (run_id : String) where
    -- With pandas as documented, where a merge with the clearing file is possible and that has none
    -- of the columns that are the payments' own: the records of a comparison of some payments that
    -- succeeds stand for the pairs of a left join, in order. Each has the run's key and, of the
    -- payment of its pair, the reference, the identifier, the amount divided by 100, the currency,
    -- the status and the converted time of creation.
    pub reconcile-IsOfPair :
        (p : Payment) (ps : List Payment) (result : Frame F) (ids : ℕ → ℕ)
        (all : List (ReconciliationRecord F))
        → CanMerge key "_internal" "_clearing" (payments_frame fl pd stamp_text (p ∷ ps)) clearing
        → reconcile fl pd stamp_text (payments_frame fl pd stamp_text (p ∷ ps)) clearing ≡ ok result
        → AllBuilt run_id ids 0 result.rows all
        → All₂
            (IsOfPair run_id)
            (left_pairs key (payments_frame fl pd stamp_text (p ∷ ps)).rows clearing.rows)
            all
    reconcile-IsOfPair p ps result ids all can h built =
        All₂-compose (pair-IsOfPair run_id)
          (left_pairs key (payments_frame fl pd stamp_text (p ∷ ps)).rows clearing.rows) result.rows
          all (reconcile-IsRowOfPair fl pd stamp_text doc clearing apart p ps result can h)
          (AllBuilt-HasCells run_id ids 0 result.rows all built)
