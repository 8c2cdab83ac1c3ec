-- ===== src/Run/Compared.antt =====
-- What the rows of a comparison hold of the payments that they stand for.
use global_payments_api.Prelude.{
  ℕ, String, ◌≡◌, refl, ap, ◌∙◌, false, List, [], ◌∷◌, map, Option, some, All, All₂, All₂-compose,
  All-append, All₂-All,
}
use global_payments_api.Python.Raised.{ok}
use global_payments_api.Python.Decimal.{of_minor_units}
use global_payments_api.Python.Float.{Float}
use global_payments_api.Frame.{text, decimal, stamp, Row, Frame, contains, get}
use global_payments_api.Pandas.{
  Pandas, IsDocumented, IsJoined, CanMerge, left_pairs, partners, paired,
}
use global_payments_api.Services.{Payment}
use global_payments_api.Reconcile.{reconcile}
use global_payments_api.Reconcile.Rows.{IsClassified, classify_all-IsClassified}
use global_payments_api.Reconcile.Suffix.{key}
use global_payments_api.Loading.{payment_columns, payment_row, payments_frame}

-- What holds of all left rows of a join.
module _ {F : Type 0} (P : Row F → Type 0) (on : String) where
  All-with :
      (a : Row F) (bs : List (Row F))
      → P a
      → All (λ (p : Row F × Option (Row F)). P p.0) (map (λ b. (a, some b)) bs)
  All-with a [] h = tt
  All-with a (b ∷ bs) h = (h, All-with a bs h)

  All-paired :
      (a : Row F) (bs : List (Row F))
      → P a
      → All (λ (p : Row F × Option (Row F)). P p.0) (paired a bs)
  All-paired a [] h = (h, tt)
  All-paired a (b ∷ bs) h = All-with a (b ∷ bs) h

  pub All-left_pairs :
      (ls rs : List (Row F))
      → All P ls
      → All (λ (p : Row F × Option (Row F)). P p.0) (left_pairs on ls rs)
  All-left_pairs [] rs h = tt
  All-left_pairs (a ∷ ls) rs h =
      All-append (λ (p : Row F × Option (Row F)). P p.0) (paired a (partners on a rs))
        (left_pairs on ls rs) (All-paired a (partners on a rs) (h.0)) (All-left_pairs ls rs (h.1))

module _ (fl : Float) (pd : Pandas fl.F) (stamp_text : ℕ → String)
    (doc : IsDocumented fl.nan pd) where
  open fl use {F}

  -- The clearing file has no column of the payments' own.
  pub record IsSeparate (clearing : Frame F) : Type 0 where
    pub no_payment_id : contains "payment_id" clearing.columns ≡ false
    pub no_internal_amount : contains "internal_amount" clearing.columns ≡ false
    pub no_internal_currency : contains "internal_currency" clearing.columns ≡ false
    pub no_internal_status : contains "internal_status" clearing.columns ≡ false
    pub no_internal_created_at : contains "internal_created_at" clearing.columns ≡ false

  -- The row of some payment.
  IsPaymentRow : Row F → Type 0
  IsPaymentRow a = (p : Payment) × (a ≡ payment_row fl pd stamp_text p)

  All-payment_row : (ps : List Payment) → All IsPaymentRow (map (payment_row fl pd stamp_text) ps)
  unfolding IsPaymentRow
  All-payment_row [] = tt
  All-payment_row (p ∷ ps) = ((p, refl), All-payment_row ps)

  -- The cells of a payment, as far as they are kept in the result.
  pub record IsRowOf (p : Payment) (row : Row F) : Type 0 where
    pub payment_reference : get key row ≡ text p.payment_reference
    pub payment_id : get "payment_id" row ≡ text p.payment_id
    pub internal_amount : get "internal_amount" row ≡ decimal (of_minor_units p.amount_minor_units)
    pub internal_currency : get "internal_currency" row ≡ text p.currency
    pub internal_status : get "internal_status" row ≡ text p.status
    pub internal_created_at : get "internal_created_at" row ≡ pd.to_utc (stamp p.created_at)

  abbrev pub IsRowOfPair : Row F × Option (Row F) → Row F → Type 0
  IsRowOfPair pair row = (p : Payment) × (pair.0 ≡ payment_row fl pd stamp_text p) × IsRowOf p row

  module _ (clearing : Frame F) (apart : IsSeparate clearing) where
    joined-IsRowOfPair :
        (pair : Row F × Option (Row F)) (m row : Row F)
        → IsPaymentRow pair.0
        → IsJoined
            (pd.missing clearing)
            key
            "_internal"
            "_clearing"
            payment_columns
            clearing.columns
            pair
            m
        → IsClassified fl pd stamp_text doc m row
        → IsRowOfPair pair row
    unfolding IsPaymentRow payment_row get
    joined-IsRowOfPair (a, b) m row (p, e) j (s, v) = (
      p,
      e,
      record {
        payment_reference = v.kept key refl refl refl refl ∙ j.left_cells key refl ∙ ap (get key) e;
        payment_id =
            v.kept "payment_id" refl refl refl refl
            ∙ (rw apart.no_payment_id at (j.left_cells "payment_id" refl))
            ∙ ap (get "payment_id") e;
        internal_amount =
            v.kept "internal_amount" refl refl refl refl
            ∙ (rw apart.no_internal_amount at (j.left_cells "internal_amount" refl))
            ∙ ap (get "internal_amount") e;
        internal_currency =
            v.kept "internal_currency" refl refl refl refl
            ∙ (rw apart.no_internal_currency at (j.left_cells "internal_currency" refl))
            ∙ ap (get "internal_currency") e;
        internal_status =
            v.kept "internal_status" refl refl refl refl
            ∙ (rw apart.no_internal_status at (j.left_cells "internal_status" refl))
            ∙ ap (get "internal_status") e;
        internal_created_at =
            v.kept "internal_created_at" refl refl refl refl
            ∙ (rw apart.no_internal_created_at at (j.left_cells "internal_created_at" refl))
            ∙ ap (get "internal_created_at") e;
      },
    )

    Joined : Row F × Option (Row F) → Row F → Type 0
    Joined =
        IsJoined (pd.missing clearing) key "_internal" "_clearing" payment_columns clearing.columns

    -- The rows of a comparison stand for the pairs of the join, in order.
    pub reconcile-IsRowOfPair :
        (p : Payment) (ps : List Payment) (result : Frame F)
        → CanMerge key "_internal" "_clearing" (payments_frame fl pd stamp_text (p ∷ ps)) clearing
        → reconcile fl pd stamp_text (payments_frame fl pd stamp_text (p ∷ ps)) clearing ≡ ok result
        → All₂ IsRowOfPair
            (left_pairs key (payments_frame fl pd stamp_text (p ∷ ps)).rows clearing.rows)
            result.rows
    unfolding reconcile payments_frame Joined
    reconcile-IsRowOfPair p ps result can h =
        let internal = payments_frame fl pd stamp_text (p ∷ ps) in
        let (m, e, cols, joined) =
          doc.merge_lem key "_internal" "_clearing" internal clearing can in
        let pairs = left_pairs key internal.rows clearing.rows in
        let own =
          All-left_pairs IsPaymentRow key internal.rows clearing.rows (All-payment_row (p ∷ ps)) in
        All₂-compose {T = IsRowOfPair}
          (λ pair q row a b. joined-IsRowOfPair pair q row (a.0) (a.1) b) pairs m.rows result.rows
          (All₂-All Joined (λ pair. IsPaymentRow pair.0) pairs m.rows own joined)
          (classify_all-IsClassified fl pd stamp_text doc m result (rw e at h))
