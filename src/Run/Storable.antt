-- ===== src/Run/Storable.antt =====
-- What a comparison returns can be stored and added up.
use global_payments_api.Prelude.{
  ℕ, String, ◌≡◌, refl, ap, true, inl, inr, List, [], ◌∷◌, map, Option, Option-cases, All, All₂,
  All-All₂, All-unit,
}
use global_payments_api.Python.Raised.{ok}
use global_payments_api.Python.Decimal.{Decimal}
use global_payments_api.Python.Float.{Float}
use global_payments_api.Frame.{
  Cell, null, text, decimal, Row, Frame, contains, distinct, lookup, get, item, is_empty,
}
use global_payments_api.Pandas.{Pandas, IsDocumented, CanMerge, merged_columns, left_pairs}
use global_payments_api.Models.{ReconciliationRecord, status_of}
use global_payments_api.Services.{Services, Payment}
use global_payments_api.Reconcile.{reconcile}
use global_payments_api.Reconcile.Cells.{to_float}
use global_payments_api.Reconcile.Columns.{classify_all-KeepsColumns, contains-merged_columns}
use global_payments_api.Reconcile.Suffix.{key, ref, reconcile_unmatched}
use global_payments_api.Loading.{column, payment_columns, payments_frame}
use global_payments_api.Persist.{status_cell, record_of}
use global_payments_api.Run.{total_amount}
use global_payments_api.Run.Compared.{IsSeparate, IsRowOfPair, reconcile-IsRowOfPair}

item-text : {F : Type 0} (c s : String) (r : Row F) → get c r ≡ text s → item c r ≡ ok (text s)
unfolding get item
item-text {F} c s r h = elim (Option-cases (lookup c r)) [
  | inl e ↦ absurd (no_text (rw e at h))
  | inr (v, e) ↦ rw e (ap ok (rw e at h))
]
  where
    no_text : ¬ (◌≡◌ {A = Cell F} null (text s))
    no_text e = cc

module _ (fl : Float) (pd : Pandas fl.F) (stamp_text : ℕ → String)
    (doc : IsDocumented fl.nan pd) where
  open fl use {F}

  -- A clearing file whose columns can be merged with the payments'.
  pub record IsFit (clearing : Frame F) : Type 0 where
    pub key_right : contains key clearing.columns ≡ true
    pub labels :
        distinct (merged_columns key "_internal" "_clearing" payment_columns clearing.columns)
        ≡ true
    pub reference : contains ref clearing.columns ≡ true
    pub apart : IsSeparate fl pd stamp_text doc clearing

  -- A column of decimals can be added up.
  pub record CanSum : Type 0 where
    pub sum_lem :
        (ds : List Decimal)
        → (c : Cell F) × (x : F) × (pd.sum (map decimal ds) ≡ ok c) × (to_float fl c ≡ ok x)

  -- A row with these two cells can be made into a record.
  readable_row :
      (pair : Row F × Option (Row F)) (row : Row F)
      → get "status" row ≡ text "UNMATCHED"
      → IsRowOfPair fl pd stamp_text doc pair row
      → (run_id : String) (id : ℕ) → (r : ReconciliationRecord F) × (record_of run_id id row ≡ ok r)
  unfolding record_of status_cell status_of
  readable_row pair row h (p, e, c) run_id id =
      rw
        (
          item-text key p.payment_reference row c.payment_reference,
          item-text "status" "UNMATCHED" row h,
        )
        (_, refl)

  readable_rows :
      (run_id : String) (pairs : List (Row F × Option (Row F))) (rows : List (Row F))
      → All (λ row. get "status" row ≡ text "UNMATCHED") rows
      → All₂ (IsRowOfPair fl pd stamp_text doc) pairs rows
      → All (λ row. (id : ℕ) → (r : ReconciliationRecord F) × (record_of run_id id row ≡ ok r)) rows
  readable_rows run_id [] [] h k = tt
  readable_rows run_id [] (row ∷ rows) h k = absurd k
  readable_rows run_id (pair ∷ pairs) [] h k = absurd k
  readable_rows run_id (pair ∷ pairs) (row ∷ rows) (e, h) (q, k) =
      (readable_row pair row e q run_id, readable_rows run_id pairs rows h k)

  IsAmount : Row F → Type 0
  IsAmount row = (d : Decimal) × (get "internal_amount" row ≡ decimal d)

  amounts :
      (rows : List (Row F))
      → All IsAmount rows
      → (ds : List Decimal) × (map (get "internal_amount") rows ≡ map decimal ds)
  unfolding IsAmount
  amounts [] h = ([], refl)
  amounts (row ∷ rows) ((d, e), h) = let (ds, q) = amounts rows h in (d ∷ ds, rw (e, q) refl)

  module _ (svc : Services F) (ids : ℕ → ℕ) (to_csv : Frame F → String) (bucket : String)
      (sums : CanSum) where
    total-Returns :
        (cols : List String) (rows : List (Row F))
        → contains "internal_amount" cols ≡ true
        → All IsAmount rows
        → (x : F) × (total_amount fl pd stamp_text svc ids to_csv bucket
              (record { columns = cols; rows = rows })
            ≡ ok x)
    unfolding total_amount column
    total-Returns cols [] has h = (_, refl)
    total-Returns cols (row ∷ rows) has h =
        let (ds, e) = amounts (row ∷ rows) h in
        let (c, x, q, t) = sums.sum_lem ds in (x, rw (has, e, q) t)

    -- What the rest of a run needs of a comparison.
    pub record IsStorable (result : Frame F) : Type 0 where
      pub readable :
          (run_id : String)
          → All
              (λ row. (id : ℕ) → (r : ReconciliationRecord F) × (record_of run_id id row ≡ ok r))
              result.rows
      pub status : contains "status" result.columns ≡ true
      pub total : (x : F) × (total_amount fl pd stamp_text svc ids to_csv bucket result ≡ ok x)

    -- The comparison returns a table that can be stored.
    pub reconcile-IsStorable :
        (ps : List Payment) (clearing : Frame F)
        → IsFit clearing
        → (result : Frame F) × (reconcile fl pd stamp_text
              (payments_frame fl pd stamp_text ps)
              clearing
            ≡ ok result)
          × IsStorable result
    unfolding reconcile payments_frame is_empty total_amount IsAmount
    reconcile-IsStorable [] clearing fit =
        (_, refl, record { readable = λ run_id. tt; status = refl; total = (_, refl) })
    reconcile-IsStorable (p ∷ ps) clearing fit =
        let internal = payments_frame fl pd stamp_text (p ∷ ps) in
        let can : CanMerge key "_internal" "_clearing" internal clearing = record {
          key_left = refl;
          key_right = fit.key_right;
          labels = fit.labels;
        } in
        let (result, e, unmatched) =
          reconcile_unmatched fl pd stamp_text doc internal clearing can refl refl fit.reference in
        let (m, merged, cols, joined) =
          doc.merge_lem key "_internal" "_clearing" internal clearing can in
        let columns = classify_all-KeepsColumns fl pd stamp_text m result (rw merged at e) in
        let pairs = left_pairs key internal.rows clearing.rows in
        let rows =
          reconcile-IsRowOfPair fl pd stamp_text doc clearing fit.apart p ps result can e in
        (
          result,
          e,
          record {
            readable = λ run_id. readable_rows run_id pairs result.rows unmatched rows;
            status = columns.status;
            total =
                total-Returns result.columns result.rows
                  (columns.kept "internal_amount" (
                    rw cols (
                      contains-merged_columns fl pd stamp_text key "internal_amount" payment_columns
                        clearing.columns refl fit.apart.no_internal_amount)))
                  (All-All₂ (λ pair row u c. (_, c.2.internal_amount)) pairs result.rows
                    (All-unit pairs) rows);
          },
        )
