-- ===== src/Reconcile/Rows.antt =====
-- What `_reconcile` makes of each merged row.
use global_payments_api.Prelude.{
  sym, Bool-cases, ℕ, String, ◌==◌, ◌≡◌, refl, ap, inl, inr, true, false, List, [], ◌∷◌, map, All₂,
  All₂-compose,
}
use mathlib.Core.Path.{subst}
use global_payments_api.Python.Raised.{
  Result, ok, err, ◌>>=◌, >>=-eq-ok, map_result, map_result-All₂,
}
use global_payments_api.Python.Float.{Float}
use global_payments_api.Frame.{Cell, null, text, flag, Row, Frame, get, item, put, put_all, assign}
use global_payments_api.Frame.Laws.{get-put, item-put}
use global_payments_api.Pandas.{Pandas, SameCell, IsDocumented}
use global_payments_api.Reconcile.{
  classify_record, compute_discrepancy, generate_notes, is_exception, classify_all, pending_note,
  amounts_note,
}
use global_payments_api.Reconcile.Cells.{equal_cells}

-- One column written: the row's value of `f`, as the table keeps it.
abbrev pub Written :
    {F : Type 0} → Pandas F → (Row F → Result (Cell F)) → String → Row F → Row F → Type 0
Written {F} pd f c r r' = (y v : Cell F) × (f r ≡ ok y) × SameCell pd y v × (r' ≡ put c v r)

module _ {F : Type 0} (pd : Pandas F) (f : Row F → Result (Cell F)) (c : String) where
  put_all-Written :
      (rs : List (Row F)) (ys vs : List (Cell F))
      → All₂ (λ r y. f r ≡ ok y) rs ys
      → All₂ (SameCell pd) ys vs
      → All₂ (Written pd f c) rs (put_all c vs rs)
  unfolding put_all
  put_all-Written [] [] [] h k = tt
  put_all-Written (r ∷ rs) (y ∷ ys) (v ∷ vs) h k =
      ((y, v, h.0, k.0, refl), put_all-Written rs ys vs h.1 k.1)
  put_all-Written [] (y ∷ ys) vs h k = absurd h
  put_all-Written (r ∷ rs) [] vs h k = absurd h
  put_all-Written [] [] (v ∷ vs) h k = absurd k
  put_all-Written (r ∷ rs) (y ∷ ys) [] h k = absurd k

-- What a row of the result says of the merged row that it comes from, where `s` is its verdict.
pub record Verdict (fl : Float) (pd : Pandas fl.F) (stamp_text : ℕ → String) (s : String)
    (m r : Row fl.F) : Type 0 where
  pub classified : classify_record fl pd stamp_text m ≡ ok s
  pub status : get "status" r ≡ text s
  pub investigate : get "requires_investigation" r ≡ flag (s == "EXCEPTION")
  pub discrepancy : (s == "EXCEPTION") ≡ false → pd.isna (get "discrepancy_amount" r) ≡ true
  pub notes : pd.isna (get "notes" r) ≡ (s == "MATCHED")
  pub kept :
      (c : String)
      → ("status" == c) ≡ false
      → ("discrepancy_amount" == c) ≡ false
      → ("requires_investigation" == c) ≡ false
      → ("notes" == c) ≡ false
      → get c r ≡ get c m

module _ (fl : Float) (pd : Pandas fl.F) (stamp_text : ℕ → String)
    (doc : IsDocumented fl.nan pd) where
  open fl use {F}

  -- A text cell is kept as it is.
  same_text : (s : String) (v : Cell F) → SameCell pd (text s) v → v ≡ text s
  same_text s v (inl e) = cc
  same_text s v (inr h) = cc (doc.isna-text s)

  same_missing : (y v : Cell F) → pd.isna y ≡ true → SameCell pd y v → pd.isna v ≡ true
  same_missing y v m (inl e) = cc
  same_missing y v m (inr h) = h.1

  same_present : (s : String) (v : Cell F) → SameCell pd (text s) v → pd.isna v ≡ false
  same_present s v h = rw (same_text s v h) (doc.isna-text s)

  pub status_step : Row F → Result (Cell F)
  status_step r = do s ← classify_record fl pd stamp_text r; ok (text s)

  status_step-eq :
      (m : Row F) (y : Cell F)
      → status_step m ≡ ok y
      → (s : String) × (classify_record fl pd stamp_text m ≡ ok s) × (y ≡ text s)
  unfolding status_step
  status_step-eq m y h =
      let (s, e, q) = >>=-eq-ok (classify_record fl pd stamp_text m) _ h in (s, e, cc q)

  ok_path : {x y : Cell F} → ok x ≡ ok y → x ≡ y
  ok_path e = cc

  -- The discrepancy of a row whose verdict is no EXCEPTION is a missing value.
  discrepancy-missing :
      (s : String) (r : Row F) (d : Cell F)
      → item "status" r ≡ ok (text s)
      → compute_discrepancy fl pd stamp_text r ≡ ok d
      → (s == "EXCEPTION") ≡ false
      → pd.isna d ≡ true
  unfolding compute_discrepancy equal_cells
  discrepancy-missing s r d e cd ne =
      let h : ok null ≡ ok d = rw (e, ne) at cd in
      subst (λ x. pd.isna x ≡ true) (ok_path h) doc.isna-null

  -- Only a MATCHED row has no note.
  notes-missing :
      (s : String) (r : Row F) (n n' : Cell F)
      → item "status" r ≡ ok (text s)
      → generate_notes fl pd stamp_text r ≡ ok n
      → SameCell pd n n'
      → pd.isna n' ≡ (s == "MATCHED")
  unfolding generate_notes equal_cells
  notes-missing s r n n' e gn sn = elim (Bool-cases (s == "MATCHED")) [
    | inl m ↦
        let h : ok null ≡ ok n = rw (e, m) at gn in
        rw m (same_missing n n' (subst (λ x. pd.isna x ≡ true) (ok_path h) doc.isna-null) sn)
    | inr o ↦ elim (Bool-cases (s == "UNMATCHED")) [
      | inl u ↦
          let h : ok (text pending_note) ≡ ok n = rw (e, o, u) at gn in
          rw o (present pending_note (ok_path h))
      | inr x ↦
          let h : ok (text (amounts_note fl pd stamp_text r)) ≡ ok n = rw (e, o, x) at gn in
          rw o (present (amounts_note fl pd stamp_text r) (ok_path h))
    ]
  ]
    where
      present : (t : String) → text t ≡ n → pd.isna n' ≡ false
      present t p = same_present t n' (subst (λ x. SameCell pd x n') (sym p) sn)

  row_Verdict :
      (s : String) (m r1 r2 r3 r4 : Row F) (d d' n n' : Cell F)
      → classify_record fl pd stamp_text m ≡ ok s
      → r1 ≡ put "status" (text s) m
      → compute_discrepancy fl pd stamp_text r1 ≡ ok d
      → SameCell pd d d'
      → r2 ≡ put "discrepancy_amount" d' r1
      → r3 ≡ put "requires_investigation" (is_exception fl pd stamp_text r2) r2
      → generate_notes fl pd stamp_text r3 ≡ ok n
      → SameCell pd n n'
      → r4 ≡ put "notes" n' r3
      → Verdict fl pd stamp_text s m r4
  unfolding equal_cells
  row_Verdict s m r1 r2 r3 r4 d d' n n' cl e1 cd sd e2 e3 gn sn e4 =
      let status1 : item "status" r1 ≡ ok (text s) = rw (e1, item-put) refl in
      let status3 : item "status" r3 ≡ ok (text s) = rw (e3, item-put, e2, item-put) status1 in
      record {
        classified = cl;
        status = rw (e4, get-put, e3, get-put, e2, get-put, e1, get-put) refl;
        investigate = rw (e4, get-put, e3, get-put) (rw (e2, get-put, e1, get-put) refl);
        discrepancy = λ ne.
            rw (e4, get-put, e3, get-put, e2, get-put)
              (same_missing d d' (discrepancy-missing s r1 d status1 cd ne) sd);
        notes = rw (e4, get-put) (notes-missing s r3 n n' status3 gn sn);
        kept = λ c h1 h2 h3 h4.
            rw (e4, get-put, h4, e3, get-put, h3, e2, get-put, h2, e1, get-put, h1) refl;
      }

  map-text-status :
      (ms : List (Row F)) (ss : List String)
      → All₂ (λ m s. classify_record fl pd stamp_text m ≡ ok s) ms ss
      → All₂ (λ m y. status_step m ≡ ok y) ms (map text ss)
  unfolding status_step
  map-text-status [] [] h = tt
  map-text-status (m ∷ ms) (s ∷ ss) h = (rw (h.0), map-text-status ms ss h.1)
  map-text-status [] (s ∷ ss) h = absurd h
  map-text-status (m ∷ ms) [] h = absurd h

  put_all-flags :
      (rs : List (Row F))
      → All₂
          (λ r r'. r' ≡ put "requires_investigation" (is_exception fl pd stamp_text r) r)
          rs
          (put_all "requires_investigation" (map (is_exception fl pd stamp_text) rs) rs)
  unfolding put_all
  put_all-flags [] = tt
  put_all-flags (r ∷ rs) = (refl, put_all-flags rs)

  -- A result row comes from a merged row with a verdict.
  abbrev pub IsClassified : Row F → Row F → Type 0
  IsClassified m r = (s : String) × Verdict fl pd stamp_text s m r

  row_IsClassified :
      (m r1 r2 r3 r4 : Row F)
      → Written pd status_step "status" m r1
      → Written pd (compute_discrepancy fl pd stamp_text) "discrepancy_amount" r1 r2
      → r3 ≡ put "requires_investigation" (is_exception fl pd stamp_text r2) r2
      → Written pd (generate_notes fl pd stamp_text) "notes" r3 r4
      → IsClassified m r4
  row_IsClassified m r1 r2 r3 r4 (y, v, ey, sv, e1) (d, d', cd, sd, e2) e3 (n, n', gn, sn, e4) =
      let (s, cl, q) = status_step-eq m y ey in
      let e1' : r1 ≡ put "status" (text s) m =
        rw (e1, same_text s v (subst (λ x. SameCell pd x v) q sv)) refl in
      (s, row_Verdict s m r1 r2 r3 r4 d d' n n' cl e1' cd sd e2 e3 gn sn e4)

  -- The first two columns, and the last two.
  abbrev Early : Row F → Row F → Type 0
  Early m r2 =
      (r1 : Row F) × Written pd status_step "status" m r1
      × Written pd (compute_discrepancy fl pd stamp_text) "discrepancy_amount" r1 r2

  abbrev Late : Row F → Row F → Type 0
  Late r2 r4 =
      (r3 : Row F) × (r3 ≡ put "requires_investigation" (is_exception fl pd stamp_text r2) r2)
      × Written pd (generate_notes fl pd stamp_text) "notes" r3 r4

  rows_of : Result (Frame F) → List (Row F)
  rows_of (ok f) = f.rows
  rows_of (err e) = []

  -- With pandas as documented, where `classify_all` succeeds, each row of the result stands at the
  -- place of its merged row: its status is what `classify_record` gives that row, it is to be
  -- investigated exactly if that is EXCEPTION, it has no discrepancy unless it is, it has a note
  -- exactly if the status is not MATCHED, and its other cells are the merged row's.
  pub classify_all-IsClassified :
      (merged result : Frame F)
      → classify_all fl pd stamp_text merged ≡ ok result
      → All₂ IsClassified merged.rows result.rows
  unfolding classify_all assign rows_of
  classify_all-IsClassified merged result h =
      let (ss, hs, h1) =
        >>=-eq-ok (map_result (classify_record fl pd stamp_text) merged.rows) _ h in
      let rows0 = merged.rows in
      let rows1 = put_all "status" (pd.infer (map text ss)) rows0 in
      let (ds, hd, h2) = >>=-eq-ok (map_result (compute_discrepancy fl pd stamp_text) rows1) _ h1 in
      let rows2 = put_all "discrepancy_amount" (pd.infer ds) rows1 in
      let rows3 =
        put_all "requires_investigation" (map (is_exception fl pd stamp_text) rows2) rows2 in
      let (ns, hn, h3) = >>=-eq-ok (map_result (generate_notes fl pd stamp_text) rows3) _ h2 in
      let rows4 = put_all "notes" (pd.infer ns) rows3 in
      let result_rows : rows4 ≡ result.rows = ap rows_of h3 in
      subst (All₂ IsClassified rows0) result_rows (
        All₂-compose {S = Late}
          (λ m r2 r4 early late.
            row_IsClassified m (early.0) r2 (late.0) r4 (early.1) (early.2) (late.1) (late.2))
          rows0 rows2 rows4
          (All₂-compose {T = Early} (λ m r1 r2 a b. (r1, a, b)) rows0 rows1 rows2
            (put_all-Written pd status_step "status" rows0 (map text ss) (pd.infer (map text ss))
              (map-text-status rows0 ss (map_result-All₂ _ rows0 ss hs))
              (doc.infer_lem (map text ss)))
            (put_all-Written pd (compute_discrepancy fl pd stamp_text) "discrepancy_amount" rows1 ds
              (pd.infer ds) (map_result-All₂ _ rows1 ds hd) (doc.infer_lem ds)))
          (All₂-compose {T = Late} (λ r2 r3 r4 a b. (r3, a, b)) rows2 rows3 rows4
            (put_all-flags rows2)
            (put_all-Written pd (generate_notes fl pd stamp_text) "notes" rows3 ns (pd.infer ns)
              (map_result-All₂ _ rows3 ns hn) (doc.infer_lem ns))))

  -- The status column alone.
  pub status_column :
      (rows : List (Row F)) (ss : List String)
      → map_result (classify_record fl pd stamp_text) rows ≡ ok ss
      → All₂ (Written pd status_step "status") rows (put_all "status" (pd.infer (map text ss)) rows)
  status_column rows ss hs =
      put_all-Written pd status_step "status" rows (map text ss) (pd.infer (map text ss))
        (map-text-status rows ss (map_result-All₂ _ rows ss hs)) (doc.infer_lem (map text ss))
