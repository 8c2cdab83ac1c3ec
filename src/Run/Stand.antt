-- ===== src/Run/Stand.antt =====
-- The records of a comparison stand for its payments: each for one, and none is left out.
use global_payments_api.Prelude.{
  ℕ, String, ◌≡◌, refl, sym, ap, ◌∙◌, inl, inr, List, [], ◌∷◌, map, Option, All, All₂, All-map,
  All-All₂, Any, Any-append_left, Any-append_right, Any-All₂,
}
use mathlib.Core.Path.{subst}
use global_payments_api.Python.Raised.{Result, ok, err}
use global_payments_api.Python.Float.{Float}
use global_payments_api.Frame.{Row, Frame, get, is_empty}
use global_payments_api.Pandas.{Pandas, IsDocumented, CanMerge, left_pairs, partners, paired}
use global_payments_api.Models.{ReconciliationRecord}
use global_payments_api.Services.{Payment}
use global_payments_api.Reconcile.{reconcile}
use global_payments_api.Reconcile.Suffix.{key}
use global_payments_api.Loading.{payment_row, payments_frame}
use global_payments_api.Loading.Query.{IsIn}
use global_payments_api.Persist.Outcome.{AllBuilt}
use global_payments_api.Run.Compared.{IsSeparate, All-left_pairs}
use global_payments_api.Run.Records.{IsOf, IsOfPair, reconcile-IsOfPair}

-- Each left row has a pair in a join.
module _ {F : Type 0} (on : String) where
  Any-paired :
      (a : Row F) (bs : List (Row F)) → Any (λ (p : Row F × Option (Row F)). p.0 ≡ a) (paired a bs)
  Any-paired a [] = inl refl
  Any-paired a (b ∷ bs) = inl refl

  Any-left_pairs :
      (a : Row F) (ls rs : List (Row F))
      → Any (λ l. l ≡ a) ls
      → Any (λ (p : Row F × Option (Row F)). p.0 ≡ a) (left_pairs on ls rs)
  Any-left_pairs a [] rs h = h
  Any-left_pairs a (l ∷ ls) rs (inl e) =
      Any-append_left _ (paired l (partners on l rs)) (left_pairs on ls rs) (
        subst (λ x. Any (λ (p : Row F × Option (Row F)). p.0 ≡ x) (paired l (partners on l rs))) e
          (Any-paired l (partners on l rs)))
  Any-left_pairs a (l ∷ ls) rs (inr h) =
      Any-append_right _ (paired l (partners on l rs)) (left_pairs on ls rs)
        (Any-left_pairs a ls rs h)

module _ (fl : Float) (pd : Pandas fl.F) (stamp_text : ℕ → String)
    (doc : IsDocumented fl.nan pd) where
  open fl use {F}

  -- Payments with equal rows have the same records.
  same_row :
      (run_id : String) (p q : Payment) (r : ReconciliationRecord F)
      → payment_row fl pd stamp_text p ≡ payment_row fl pd stamp_text q
      → IsOf fl pd stamp_text doc run_id p r
      → IsOf fl pd stamp_text doc run_id q r
  unfolding payment_row get
  same_row run_id p q r e h = record {
    payment_reference = h.payment_reference ∙ ap (get "payment_reference") e;
    payment_id = h.payment_id ∙ ap (get "payment_id") e;
    internal_amount = h.internal_amount ∙ ap (get "internal_amount") e;
    internal_currency = h.internal_currency ∙ ap (get "internal_currency") e;
    internal_status = h.internal_status ∙ ap (get "internal_status") e;
    internal_created_at = h.internal_created_at ∙ ap (get "internal_created_at") e;
    run = h.run;
  }

  -- The records stand for these payments: each for one of them, and each of them has a record.
  pub record Stand (run_id : String) (ps : List Payment) (all : List (ReconciliationRecord F))
      : Type 0 where
    pub of_payment : All (λ r. (p : Payment) × IsIn p ps × IsOf fl pd stamp_text doc run_id p r) all
    pub has_record : (p : Payment) → IsIn p ps → Any (λ r. IsOf fl pd stamp_text doc run_id p r) all

  abbrev OfOne : List Payment → Row F → Type 0
  OfOne L a = (p : Payment) × IsIn p L × (a ≡ payment_row fl pd stamp_text p)

  own_rows : (ps : List Payment) → All (OfOne ps) (map (payment_row fl pd stamp_text) ps)
  own_rows [] = tt
  own_rows (p ∷ ps) = ((p, inl refl, refl), All-map (λ a (q, i, e). (q, inr i, e)) _ (own_rows ps))

  row_of :
      (p : Payment) (ps : List Payment)
      → IsIn p ps
      → Any (λ a. a ≡ payment_row fl pd stamp_text p) (map (payment_row fl pd stamp_text) ps)
  row_of p [] h = h
  row_of p (q ∷ ps) (inl e) = inl (ap (payment_row fl pd stamp_text) e)
  row_of p (q ∷ ps) (inr h) = inr (row_of p ps h)

  pairs-Stand :
      (run_id : String) (ps : List Payment) (right : List (Row F))
      (all : List (ReconciliationRecord F))
      → All₂
          (IsOfPair fl pd stamp_text doc run_id)
          (left_pairs key (map (payment_row fl pd stamp_text) ps) right)
          all
      → Stand run_id ps all
  pairs-Stand run_id ps right all h =
      let rows = map (payment_row fl pd stamp_text) ps in
      record {
        of_payment =
            All-All₂ (λ pair r (p, i, e) (q, e', k). (p, i, same_row run_id q p r (sym e' ∙ e) k))
              (left_pairs key rows right) all
              (All-left_pairs (OfOne ps) key rows right (own_rows ps)) h;
        has_record = λ p i.
            Any-All₂ (λ pair r e (q, e', k). same_row run_id q p r (sym e' ∙ e) k)
              (left_pairs key rows right) all
              (Any-left_pairs key (payment_row fl pd stamp_text p) rows right (row_of p ps i)) h;
      }

  -- The payments can be merged with the clearing file, which has none of their own columns.
  abbrev pub Fits : List Payment → Frame F → Type 0
  Fits ps clearing =
      CanMerge key "_internal" "_clearing" (payments_frame fl pd stamp_text ps) clearing
      × IsSeparate fl pd stamp_text doc clearing

  no_records :
      (run_id : String) (ids : ℕ → ℕ) (rows : List (Row F)) (all : List (ReconciliationRecord F))
      → rows ≡ []
      → AllBuilt run_id ids 0 rows all
      → Stand run_id [] all
  no_records run_id ids rows [] e b = record { of_payment = tt; has_record = λ p i. i }
  no_records run_id ids [] (r ∷ all) e b = absurd b
  no_records run_id ids (row ∷ rows) (r ∷ all) e b = cc

  pub comparison-Stand :
      (run_id : String) (ids : ℕ → ℕ) (ps : List Payment) (clearing result : Frame F)
      (all : List (ReconciliationRecord F))
      → Fits ps clearing
      → reconcile fl pd stamp_text (payments_frame fl pd stamp_text ps) clearing ≡ ok result
      → AllBuilt run_id ids 0 result.rows all
      → Stand run_id ps all
  unfolding reconcile payments_frame is_empty
  comparison-Stand run_id ids [] clearing result all fits h b =
      no_records run_id ids result.rows all (sym (ap rows_of h)) b
    where
      rows_of : Result (Frame F) → List (Row F)
      rows_of (ok f) = f.rows
      rows_of (err e) = []
  comparison-Stand run_id ids (p ∷ ps) clearing result all (can, apart) h b =
      pairs-Stand run_id (p ∷ ps) clearing.rows all
        (reconcile-IsOfPair fl pd stamp_text doc clearing apart run_id p ps result ids all can h b)
