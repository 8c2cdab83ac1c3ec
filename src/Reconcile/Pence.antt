-- ===== src/Reconcile/Pence.antt =====
-- The verdict on amounts of whole pence, with Python's floats as they are: binary, of 64 bits.
use global_payments_api.Prelude.{
  ℕ, ◌≤◌, ◌≡◌, sym, ◌∙◌, ◌↔◌, not, String, false, Option, arith, eqb, pos,
}
use global_payments_api.Python.Raised.{ok}
use global_payments_api.Python.Decimal.{Decimal, of_minor_units}
use global_payments_api.Python.Decimal.Hundredths.{IsHundredths, of_minor_units-IsHundredths}
use global_payments_api.Python.Float.Binary64.{Double, binary64}
use global_payments_api.Python.Float.Binary64.Hundredths.{most, gt-abs-sub}
use global_payments_api.Frame.{Row, text, decimal, get}
use global_payments_api.Pandas.{Pandas}
use global_payments_api.Reconcile.{classify_record}
use global_payments_api.Reconcile.Statuses.{classify-matched_iff}

not-eqb_iff : (p q : ℕ) → (not (eqb p q) ≡ false) ↔ (p ≡ q)
not-eqb_iff p q = (λ h. ground arith, λ h. ground arith)

module _ (of_text : String → Option Double) (to_text : Double → String) (pd : Pandas Double)
    (stamp_text : ℕ → String) where
  -- With floats of 64 bits: a merged row whose clearing reference is not missing, with the converted
  -- amount of a payment of `n` minor units, a clearing amount of `p` hundredths, neither above 10^14,
  -- and a currency on both sides, is MATCHED exactly when `n` is `p` and the currencies are the same.
  pub classify-same_pence_iff :
      (m : Row Double) (n p : ℕ) (b : Decimal) (s t : String)
      → pd.isna (get "clearing_reference" m) ≡ false
      → get "internal_amount" m ≡ decimal (of_minor_units (pos n))
      → get "clearing_amount" m ≡ decimal b
      → IsHundredths b p
      → n ≤ most
      → p ≤ most
      → get "internal_currency" m ≡ text s
      → get "clearing_currency" m ≡ text t
      → (classify_record (binary64 of_text to_text) pd stamp_text m ≡ ok "MATCHED")
        ↔ ((n ≡ p) × (s ≡ t))
  classify-same_pence_iff m n p b s t here ea eb h k l es et =
      let (to, from) =
        (classify-matched_iff (binary64 of_text to_text) pd stamp_text m (of_minor_units (pos n)) b
          s t here ea eb es et).0 in
      let test = gt-abs-sub (of_minor_units (pos n)) b n p (of_minor_units-IsHundredths n) h k l in
      let (same, differ) = not-eqb_iff n p in
      (λ e. let (u, v) = to e in (same (sym test ∙ u), v), λ e. from (test ∙ differ e.0, e.1))
