-- ===== src/Reconcile/Suffix.antt =====
-- The column `clearing_reference` of both sides: a merge renames it on both, so that
-- `row.get('clearing_reference')` finds nothing.
use package.text.Mathlib.TextLemmas.{length-append, append_inj}
use Prim.Native.String.{count}
use global_payments_api.Prelude.{
  ℕ, String, ◌==◌, ◌<>◌, eq_iff, ◌≡◌, ◌≢◌, refl, ap, Bool-cases, inl, inr, true, false, List, [],
  ◌∷◌, map, Option, arith, All, All-map, All₂, All-All₂, All-unit,
}
use global_payments_api.Python.Raised.{ok}
use global_payments_api.Python.Float.{Float}
use global_payments_api.Frame.{null, text, Row, Frame, contains, get, is_empty}
use global_payments_api.Frame.Labels.{contains-append}
use global_payments_api.Pandas.{
  Pandas, IsDocumented, IsJoined, CanMerge, left_pairs, merged_label, merged_columns, not_key,
}
use global_payments_api.Reconcile.{classify_record, reconcile}
use global_payments_api.Reconcile.Rows.{IsClassified, classify_all-IsClassified}
use global_payments_api.Reconcile.Total.{classify_all-Returns}

-- Two texts that end differently, in as many characters, are not the same.
append-ne :
    (c suffix head tail : String)
    → count suffix ≡ count tail
    → suffix ≢ tail
    → (c <> suffix) ≢ (head <> tail)
append-ne c suffix head tail same ne e =
    ne
      (append_inj e
        (omega (arith, length-append c suffix, length-append head tail, ap count e, same))).1

internal-ne : (c : String) → (c <> "_internal" == "clearing_reference") ≡ false
internal-ne c = elim (Bool-cases (c <> "_internal" == "clearing_reference")) [
  | inl e ↦ absurd (
      append-ne c "_internal" "clearing_" "reference" refl
        (λ h. ground (arith, eq_iff "_internal" "reference")) ((eq_iff _ _).0 e))
  | inr e ↦ e
]

clearing-ne : (c : String) → (c <> "_clearing" == "clearing_reference") ≡ false
clearing-ne c = elim (Bool-cases (c <> "_clearing" == "clearing_reference")) [
  | inl e ↦ absurd (
      append-ne c "_clearing" "clearing_" "reference" refl
        (λ h. ground (arith, eq_iff "_clearing" "reference")) ((eq_iff _ _).0 e))
  | inr e ↦ e
]

abbrev pub key : String
key = "payment_reference"

abbrev pub ref : String
ref = "clearing_reference"

module _ (suffix : String) (apart : (c : String) → (c <> suffix == ref) ≡ false)
    (others : List String) (shared : contains ref others ≡ true) where
  label-ne : (c : String) → (merged_label key suffix others c == ref) ≡ false
  label-ne c = ground (arith, apart c, eq_iff c key, eq_iff c ref, eq_iff key ref)

  labels-ne : (cs : List String) → contains ref (map (merged_label key suffix others) cs) ≡ false
  labels-ne [] = refl
  labels-ne (c ∷ cs) = ground (arith, label-ne c, labels-ne cs)

-- If both sides have the column, the merged table has none of that name.
pub merged_columns-ref :
    (lcs rcs : List String)
    → contains ref lcs ≡ true
    → contains ref rcs ≡ true
    → contains ref (merged_columns key "_internal" "_clearing" lcs rcs) ≡ false
merged_columns-ref lcs rcs hl hr =
    rw
      (
        contains-append ref (map (merged_label key "_internal" rcs) lcs),
        labels-ne "_internal" internal-ne rcs hr lcs,
      )
      (labels-ne "_clearing" clearing-ne lcs hl (not_key key rcs))

module _ (fl : Float) (pd : Pandas fl.F) (stamp_text : ℕ → String) (doc : IsDocumented fl.nan pd)
    (internal clearing : Frame fl.F) where
  open fl use {F}

  no_reference :
      (m : Row F) → get ref m ≡ null → classify_record fl pd stamp_text m ≡ ok "UNMATCHED"
  unfolding classify_record
  no_reference m e = rw (e, doc.isna-null)

  joined_no_reference :
      contains ref internal.columns ≡ true
      → contains ref clearing.columns ≡ true
      → (ps : List (Row F × Option (Row F))) (ms : List (Row F))
      → All₂
          (IsJoined
            (pd.missing clearing)
            key
            "_internal"
            "_clearing"
            internal.columns
            clearing.columns)
          ps
          ms
      → All (λ m. classify_record fl pd stamp_text m ≡ ok "UNMATCHED") ms
  joined_no_reference hl hr ps ms j =
      All-All₂
        (λ p m u joined.
          no_reference m
            (joined.no_others ref (merged_columns-ref internal.columns clearing.columns hl hr)))
        ps ms (All-unit ps) j

  verdict_unmatched :
      (m r : Row F)
      → classify_record fl pd stamp_text m ≡ ok "UNMATCHED"
      → IsClassified fl pd stamp_text doc m r
      → get "status" r ≡ text "UNMATCHED"
  verdict_unmatched m r e (s, v) = cc (v.classified, v.status)

  -- With pandas as documented, whatever the clearing file says of the payments: where both tables
  -- have the column `clearing_reference`, the merge is possible and there is a payment, the
  -- comparison succeeds and every row of its result is UNMATCHED.
  pub reconcile_unmatched :
      CanMerge key "_internal" "_clearing" internal clearing
      → is_empty internal ≡ false
      → contains ref internal.columns ≡ true
      → contains ref clearing.columns ≡ true
      → (result : Frame F) × (reconcile fl pd stamp_text internal clearing ≡ ok result)
        × All (λ r. get "status" r ≡ text "UNMATCHED") result.rows
  unfolding reconcile
  reconcile_unmatched can filled hl hr =
      let (m, e, cols, joined) = doc.merge_lem key "_internal" "_clearing" internal clearing can in
      let verdicts =
        joined_no_reference hl hr (left_pairs key internal.rows clearing.rows) m.rows joined in
      let (result, q) =
        classify_all-Returns fl pd stamp_text doc m
          (All-map (λ r h. ("UNMATCHED", h)) m.rows verdicts) in
      (
        result,
        rw (filled, e) q,
        All-All₂ verdict_unmatched m.rows result.rows verdicts
            (classify_all-IsClassified fl pd stamp_text doc m result q),
      )
