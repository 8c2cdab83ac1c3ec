-- ===== src/Reconcile/Join.antt =====
-- Which rows a comparison has: a left join, the payments in order, each with its clearing records.
use global_payments_api.Prelude.{
  ℕ, ◌≤◌, String, ◌==◌, eq_iff, ◌≡◌, refl, ◌∙◌, true, false, List, [], ◌∷◌, arith, length,
  length-append, Option, All₂, All₂-compose, All₂-length,
}
use global_payments_api.Python.Raised.{ok}
use global_payments_api.Python.Float.{Float}
use global_payments_api.Frame.{Row, Frame, contains, get, is_empty}
use global_payments_api.Pandas.{
  Pandas, IsDocumented, IsJoined, CanMerge, left_pairs, right_cell, partners, paired, not_key,
}
use global_payments_api.Reconcile.{reconcile}
use global_payments_api.Reconcile.Rows.{IsClassified, classify_all-IsClassified}
use global_payments_api.Reconcile.Suffix.{key}

paired-pos : {F : Type 0} (a : Row F) (bs : List (Row F)) → 1 ≤ length (paired a bs)
paired-pos a [] = omega arith
paired-pos a (b ∷ bs) = omega arith

-- A join has at least one row for each payment.
length-left_pairs :
    {F : Type 0} (on : String) (ls rs : List (Row F)) → length ls ≤ length (left_pairs on ls rs)
length-left_pairs on [] rs = omega arith
length-left_pairs on (a ∷ ls) rs = omega (
  arith,
  length-append (paired a (partners on a rs)) (left_pairs on ls rs),
  paired-pos a (partners on a rs),
  length-left_pairs on ls rs,
)

module _ (fl : Float) (pd : Pandas fl.F) (stamp_text : ℕ → String) (doc : IsDocumented fl.nan pd)
    (internal clearing : Frame fl.F) where
  open fl use {F}

  -- A row of the result, and the payment and clearing record that it is made of.
  pub record IsComparison (p : Row F × Option (Row F)) (r : Row F) : Type 0 where
    pub reference : get key r ≡ get key p.0
    pub internal_amount : get "internal_amount" r ≡ get "internal_amount" p.0
    pub internal_currency : get "internal_currency" r ≡ get "internal_currency" p.0
    pub clearing_amount :
        get "clearing_amount" r ≡ right_cell (pd.missing clearing) "clearing_amount" p.1
    pub clearing_currency :
        get "clearing_currency" r ≡ right_cell (pd.missing clearing) "clearing_currency" p.1

  -- The columns that the comparison reads stand on one side each.
  pub record HasColumns : Type 0 where
    pub payment_reference : contains key internal.columns ≡ true
    pub internal_amount : contains "internal_amount" internal.columns ≡ true
    pub internal_currency : contains "internal_currency" internal.columns ≡ true
    pub clearing_amount : contains "clearing_amount" clearing.columns ≡ true
    pub clearing_currency : contains "clearing_currency" clearing.columns ≡ true
    pub no_internal_amount : contains "internal_amount" clearing.columns ≡ false
    pub no_internal_currency : contains "internal_currency" clearing.columns ≡ false
    pub no_clearing_amount : contains "clearing_amount" internal.columns ≡ false
    pub no_clearing_currency : contains "clearing_currency" internal.columns ≡ false

  contains-not_key :
      (c : String) (cs : List String)
      → (c == key) ≡ false
      → contains c cs ≡ true
      → contains c (not_key key cs) ≡ true
  contains-not_key c [] h k = k
  contains-not_key c (x ∷ xs) h k =
      ground (arith, contains-not_key c xs h, eq_iff x c, eq_iff x key, eq_iff c key)

  joined-IsComparison :
      HasColumns
      → (p : Row F × Option (Row F)) (m r : Row F)
      → IsJoined
          (pd.missing clearing)
          key
          "_internal"
          "_clearing"
          internal.columns
          clearing.columns
          p
          m
      → IsClassified fl pd stamp_text doc m r
      → IsComparison p r
  joined-IsComparison has p m r j (s, v) = record {
    reference = v.kept key refl refl refl refl ∙ j.left_cells key has.payment_reference;
    internal_amount =
        v.kept "internal_amount" refl refl refl refl
        ∙ (rw has.no_internal_amount at (j.left_cells "internal_amount" has.internal_amount));
    internal_currency =
        v.kept "internal_currency" refl refl refl refl
        ∙ (rw has.no_internal_currency at (j.left_cells "internal_currency" has.internal_currency));
    clearing_amount =
        v.kept "clearing_amount" refl refl refl refl
        ∙ (rw has.no_clearing_amount at (
            j.right_cells "clearing_amount"
              (contains-not_key "clearing_amount" clearing.columns refl has.clearing_amount)));
    clearing_currency =
        v.kept "clearing_currency" refl refl refl refl
        ∙ (rw has.no_clearing_currency at (
            j.right_cells "clearing_currency"
              (contains-not_key "clearing_currency" clearing.columns refl has.clearing_currency)));
  }

  -- With pandas as documented, where a merge is possible, the columns stand on one side each and there is a payment, the rows
  -- of a comparison that succeeds are those of a left join, in order: each payment with each of its
  -- clearing records, or once with none, and no other. So there are at least as many rows as payments.
  pub reconcile-left_pairs :
      CanMerge key "_internal" "_clearing" internal clearing
      → HasColumns
      → is_empty internal ≡ false
      → (result : Frame F) → reconcile fl pd stamp_text internal clearing ≡ ok result
      → All₂ IsComparison (left_pairs key internal.rows clearing.rows) result.rows
        × (length internal.rows ≤ length result.rows)
  unfolding reconcile
  reconcile-left_pairs can has filled result h =
      let (m, e, cols, joined) = doc.merge_lem key "_internal" "_clearing" internal clearing can in
      let pairs = left_pairs key internal.rows clearing.rows in
      let rows : All₂ IsComparison pairs result.rows =
        All₂-compose (joined-IsComparison has) pairs m.rows result.rows joined
          (classify_all-IsClassified fl pd stamp_text doc m result (rw (filled, e) at h)) in
      (
        rows,
        omega (
          arith,
          All₂-length IsComparison pairs result.rows rows,
          length-left_pairs key internal.rows clearing.rows,
        ),
      )
