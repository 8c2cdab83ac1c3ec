-- ===== src/Reconcile/Columns.antt =====
-- The columns of a comparison.
use mathlib.Core.Path.{subst}
use global_payments_api.Prelude.{
  ℕ, String, ◌==◌, eq_refl, ◌≡◌, refl, Bool, true, false, ◌||◌, Bool-cases, inl, inr, List, [], ◌∷◌,
  ◌++◌, map, arith,
}
use global_payments_api.Python.Raised.{ok, >>=-eq-ok, map_result}
use global_payments_api.Python.Float.{Float}
use global_payments_api.Frame.{Cell, text, Frame, contains, assign}
use global_payments_api.Frame.Labels.{contains-append, contains-map}
use global_payments_api.Pandas.{Pandas, merged_label, merged_columns, not_key}
use global_payments_api.Reconcile.{
  classify_record, compute_discrepancy, generate_notes, is_exception, classify_all,
}

contains_last : (c : String) (xs : List String) → contains c (xs ++ c ∷ []) ≡ true
contains_last c [] = rw eq_refl
contains_last c (x ∷ xs) = ground (arith, contains_last c xs)

module _ {F : Type 0} (d : String) (cells : List (Cell F)) (f : Frame F) where
  contains-assign : contains d (assign d cells f).columns ≡ true
  unfolding assign
  contains-assign = elim (Bool-cases (contains d f.columns)) [
    | inl e ↦ rw e e
    | inr e ↦ rw e (contains_last d f.columns)
  ]

  contains-assign_other :
      (c : String) → contains c f.columns ≡ true → contains c (assign d cells f).columns ≡ true
  unfolding assign
  contains-assign_other c h = elim (Bool-cases (contains d f.columns)) [
    | inl e ↦ rw e h
    | inr e ↦ rw (e, contains-append c f.columns (d ∷ []), h)
  ]

module _ (fl : Float) (pd : Pandas fl.F) (stamp_text : ℕ → String) where
  open fl use {F}

  -- The status is a column of the classified table, and no column is lost.
  pub record KeepsColumns (m r : Frame F) : Type 0 where
    pub status : contains "status" r.columns ≡ true
    pub kept : (c : String) → contains c m.columns ≡ true → contains c r.columns ≡ true

  pub classify_all-KeepsColumns :
      (m result : Frame F) → classify_all fl pd stamp_text m ≡ ok result → KeepsColumns m result
  unfolding classify_all
  classify_all-KeepsColumns m result h =
      let (ss, hs, h1) = >>=-eq-ok (map_result (classify_record fl pd stamp_text) m.rows) _ h in
      let f1 = assign "status" (pd.infer (map text ss)) m in
      let (ds, hd, h2) =
        >>=-eq-ok (map_result (compute_discrepancy fl pd stamp_text) f1.rows) _ h1 in
      let f2 = assign "discrepancy_amount" (pd.infer ds) f1 in
      let f3 = assign "requires_investigation" (map (is_exception fl pd stamp_text) f2.rows) f2 in
      let (ns, hn, h3) = >>=-eq-ok (map_result (generate_notes fl pd stamp_text) f3.rows) _ h2 in
      let keep : (c : String)
          → contains c f1.columns ≡ true
          → contains c (assign "notes" (pd.infer ns) f3).columns ≡ true =
        λ c k. contains-assign_other "notes" (pd.infer ns) f3 c (
          contains-assign_other "requires_investigation" _ f2 c
            (contains-assign_other "discrepancy_amount" (pd.infer ds) f1 c k)) in
      subst (KeepsColumns m) (ok_frame h3) (record {
        status = keep "status" (contains-assign "status" _ m);
        kept = λ c k. keep c (contains-assign_other "status" _ m c k);
      })
    where
      ok_frame : {a b : Frame F} → ok a ≡ ok b → a ≡ b
      ok_frame e = cc

  -- A column of the payments that the clearing file does not have.
  pub contains-merged_columns :
      (on c : String) (lcs rcs : List String)
      → contains c lcs ≡ true
      → contains c rcs ≡ false
      → contains c (merged_columns on "_internal" "_clearing" lcs rcs) ≡ true
  contains-merged_columns on c lcs rcs l r =
      rw
        (contains-append c (map (merged_label on "_internal" rcs) lcs)
          (map (merged_label on "_clearing" lcs) (not_key on rcs)))
        (left _ (
          subst (λ x. contains x (map (merged_label on "_internal" rcs) lcs) ≡ true) same
            (contains-map (merged_label on "_internal" rcs) c lcs l)))
    where
      same : merged_label on "_internal" rcs c ≡ c
      same = elim (Bool-cases (c == on)) [ inl e ↦ rw e refl | inr e ↦ rw (e, r) refl ]

      left : {a : Bool} (b : Bool) → a ≡ true → (a || b) ≡ true
      left b e = rw e refl
