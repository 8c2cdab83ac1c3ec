-- ===== src/Reconcile/Statuses.antt =====
-- The verdicts are the three of `ReconciliationStatus`, and so are the cells of the result.
use global_payments_api.Prelude.{
  ℕ, ◌+◌, String, ◌==◌, eq_iff, not, sym, ◌∙◌, ◌≡◌, refl, ◌↔◌, ◌⊎◌, inl, inr, Bool, true, false,
  List, [], ◌∷◌, map, arith, length, count_if, All, All-All₂, All-unit, if◌then◌else◌,
}
use global_payments_api.Python.Raised.{Result, ok, >>=-eq-ok}
use global_payments_api.Python.Decimal.{Decimal}
use global_payments_api.Python.Float.{Float}
use global_payments_api.Frame.{Cell, text, decimal, Row, Frame, get, is_empty}
use global_payments_api.Pandas.{Pandas, IsDocumented}
use global_payments_api.Reconcile.{classify_record, classify_all, reconcile}
use global_payments_api.Reconcile.Cells.{to_float, equal_cells}
use global_payments_api.Reconcile.Rows.{IsClassified, classify_all-IsClassified}

abbrev pub IsStatus : {F : Type 0} → Cell F → Type 0
IsStatus c = (c ≡ text "MATCHED") ⊎ ((c ≡ text "UNMATCHED") ⊎ (c ≡ text "EXCEPTION"))

abbrev pick : Bool → Bool → String
pick differ same = if differ then "EXCEPTION" else if not same then "EXCEPTION" else "MATCHED"

ok-ne : ¬ (◌≡◌ {A = Result String} (ok "EXCEPTION") (ok "MATCHED"))
ok-ne e = ground (arith, eq_iff "EXCEPTION" "MATCHED", ok_text e)
  where
    ok_text : {s t : String} → ok s ≡ ok t → s ≡ t
    ok_text e = cc

pick_iff :
    (differ : Bool) (p q : String) (same : Bool)
    → (p == q) ≡ same
    → ((ok (pick differ same) ≡ ok "MATCHED") ↔ ((differ ≡ false) × (p ≡ q)))
      × ((ok (pick differ same) ≡ ok "MATCHED") ⊎ (ok (pick differ same) ≡ ok "EXCEPTION"))
pick_iff true p q same e = ((λ h. absurd (ok-ne h), λ h. cc), inr refl)
pick_iff false p q true e = ((λ h. (refl, (eq_iff p q).0 e), λ h. refl), inl refl)
pick_iff false p q false e =
    ((λ h. absurd (ok-ne h), λ h. absurd (true_ne (sym ((eq_iff p q).1 h.1) ∙ e))), inr refl)
  where
    true_ne : ¬ (true ≡ false)
    true_ne e = cc

module _ (fl : Float) (pd : Pandas fl.F) (stamp_text : ℕ → String) where
  open fl use {F}

  classify_outcome :
      (m : Row F) (s : String)
      → classify_record fl pd stamp_text m ≡ ok s
      → (s ≡ "MATCHED") ⊎ ((s ≡ "UNMATCHED") ⊎ (s ≡ "EXCEPTION"))
  unfolding classify_record
  classify_outcome m s h = ground arith

  -- A merged row whose clearing reference is not missing, with decimal amounts and a currency on both
  -- sides, is MATCHED exactly when the distance of the amounts, as floats, is not above the tolerance
  -- and the currencies are the same; and it is MATCHED or an EXCEPTION.
  pub classify-matched_iff :
      (m : Row F) (a b : Decimal) (p q : String)
      → pd.isna (get "clearing_reference" m) ≡ false
      → get "internal_amount" m ≡ decimal a
      → get "clearing_amount" m ≡ decimal b
      → get "internal_currency" m ≡ text p
      → get "clearing_currency" m ≡ text q
      → ((classify_record fl pd stamp_text m ≡ ok "MATCHED") ↔ (
          (fl.gt (fl.abs (fl.sub (fl.of_decimal a) (fl.of_decimal b))) fl.tolerance ≡ false)
          × (p ≡ q)))
        × ((classify_record fl pd stamp_text m ≡ ok "MATCHED")
            ⊎ (classify_record fl pd stamp_text m ≡ ok "EXCEPTION"))
  unfolding classify_record to_float equal_cells
  classify-matched_iff m a b p q here ea eb ep eq =
      rw (here, ea, eb, ep, eq)
        (pick_iff (fl.gt (fl.abs (fl.sub (fl.of_decimal a) (fl.of_decimal b))) fl.tolerance) p q
          (p == q) refl)

module _ (fl : Float) (pd : Pandas fl.F) (stamp_text : ℕ → String)
    (doc : IsDocumented fl.nan pd) where
  open fl use {F}

  verdict-IsStatus :
      (m r : Row F) → Unit {0} → IsClassified fl pd stamp_text doc m r → IsStatus (get "status" r)
  verdict-IsStatus m r u (s, v) =
      ground (arith, classify_outcome fl pd stamp_text m s v.classified, v.status)

  -- Every row of a classified table has one of the three statuses.
  pub classify_all-IsStatus :
      (merged result : Frame F)
      → classify_all fl pd stamp_text merged ≡ ok result
      → All (λ r. IsStatus (get "status" r)) result.rows
  classify_all-IsStatus merged result h =
      All-All₂ verdict-IsStatus merged.rows result.rows (All-unit merged.rows)
        (classify_all-IsClassified fl pd stamp_text doc merged result h)

  -- With pandas as documented, every row of a comparison that succeeds, of payments that are not an
  -- empty table, has one of the statuses MATCHED, UNMATCHED and EXCEPTION.
  pub reconcile-IsStatus :
      (internal clearing result : Frame F)
      → is_empty internal ≡ false
      → reconcile fl pd stamp_text internal clearing ≡ ok result
      → All (λ r. IsStatus (get "status" r)) result.rows
  unfolding reconcile
  reconcile-IsStatus internal clearing result filled h =
      let h' = rw filled at h in
      let (merged, e, q) = >>=-eq-ok (pd.merge _ _ _ internal clearing) _ h' in
      classify_all-IsStatus merged result q

module _ (fl : Float) where
  open fl use {F}

  -- The three counts of a column of statuses add up to its length.
  pub counts_add_up :
      (rows : List (Row F))
      → All (λ r. IsStatus (get "status" r)) rows
      → count_if (λ c. equal_cells fl c (text "MATCHED")) (map (get "status") rows)
          + count_if (λ c. equal_cells fl c (text "UNMATCHED")) (map (get "status") rows)
          + count_if (λ c. equal_cells fl c (text "EXCEPTION")) (map (get "status") rows)
        ≡ length rows
  unfolding equal_cells
  counts_add_up [] h = omega arith
  counts_add_up (r ∷ rows) (inl e, h) = rw e (omega (arith, counts_add_up rows h))
  counts_add_up (r ∷ rows) (inr (inl e), h) = rw e (omega (arith, counts_add_up rows h))
  counts_add_up (r ∷ rows) (inr (inr e), h) = rw e (omega (arith, counts_add_up rows h))
