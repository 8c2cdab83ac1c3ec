-- ===== src/Reconcile/Total.antt =====
-- `_reconcile` raises nothing of its own: the columns after the first cannot fail, and the first
-- fails only where an amount is no number.
use global_payments_api.Prelude.{
  Option, none, some, pos, Bool-cases, ℕ, String, ◌==◌, ◌≡◌, refl, ◌⊎◌, inl, inr, List, [], ◌∷◌,
  map, All, All-All₂, All-map, All-unit,
}
use global_payments_api.Python.Raised.{
  Result, ok, err, Raised, type_error, value_error, ◌>>=◌, map_result_total,
}
use global_payments_api.Python.Float.{Float}
use global_payments_api.Frame.{
  Cell, null, text, number, stamp, not_a_time, integer, Row, Frame, get_or, item, put, put_all,
  assign,
}
use global_payments_api.Frame.Laws.{item-put}
use global_payments_api.Pandas.{Pandas, IsDocumented}
use global_payments_api.Reconcile.{
  distance, classify_record, or_none, compute_discrepancy, generate_notes, is_exception,
  classify_all,
}
use global_payments_api.Reconcile.Cells.{to_float, or_value_error, equal_cells}
use global_payments_api.Reconcile.Rows.{Written, status_step, status_column}

-- The handler of `_compute_discrepancy` takes the exception.
abbrev IsCaught : Raised → Type 0
IsCaught e = (e.kind ≡ type_error) ⊎ (e.kind ≡ value_error)

abbrev FailsCaught : {A : Type 0} → Result A → Type 0
FailsCaught (ok a) = Unit
FailsCaught (err e) = IsCaught e

abbrev Returns : {A : Type 0} → Result A → Type 0
Returns {A} r = (a : A) × (r ≡ ok a)

-- The row has a cell under "status".
abbrev HasStatus : {F : Type 0} → Row F → Type 0
HasStatus {F} r = (v : Cell F) × (item "status" r ≡ ok v)

module _ (fl : Float) where
  open fl use {F}

  or_value_error-FailsCaught : (s : String) (o : Option F) → FailsCaught (or_value_error fl s o)
  or_value_error-FailsCaught s none = inr refl
  or_value_error-FailsCaught s (some x) = tt

  to_float-FailsCaught : (x : Cell F) → FailsCaught (to_float fl x)
  unfolding to_float
  to_float-FailsCaught null = inl refl
  to_float-FailsCaught (text s) = or_value_error-FailsCaught s (fl.of_text s)
  to_float-FailsCaught (stamp t) = inl refl
  to_float-FailsCaught not_a_time = inl refl
  to_float-FailsCaught _ = tt

module _ (fl : Float) (pd : Pandas fl.F) (stamp_text : ℕ → String)
    (doc : IsDocumented fl.nan pd) where
  open fl use {F}

  distance-FailsCaught : (x y : Cell F) → FailsCaught (distance fl pd stamp_text x y)
  unfolding distance
  distance-FailsCaught x y =
      go (to_float fl x) (to_float fl y) (to_float-FailsCaught fl x) (to_float-FailsCaught fl y)
    where
      go :
          (r q : Result F)
          → FailsCaught r
          → FailsCaught q
          → FailsCaught (r >>= λ a. q >>= λ b. ok (fl.abs (fl.sub a b)))
      go (err e) q h k = h
      go (ok a) (err e) h k = k
      go (ok a) (ok b) h k = tt

  or_none-Returns : (r : Result F) → FailsCaught r → Returns (or_none fl pd stamp_text r)
  or_none-Returns (ok x) h = (number x, refl)
  or_none-Returns (err e) (inl h) = (null, rw h)
  or_none-Returns (err e) (inr h) = (null, rw h)

  compute_discrepancy-Returns :
      (r : Row F) → HasStatus r → Returns (compute_discrepancy fl pd stamp_text r)
  unfolding compute_discrepancy
  compute_discrepancy-Returns r (v, e) =
      let x = get_or "internal_amount" (integer (pos 0)) r in
      let y = get_or "clearing_amount" (integer (pos 0)) r in
      let (c, q) = or_none-Returns (distance fl pd stamp_text x y) (distance-FailsCaught x y) in
      elim (Bool-cases (equal_cells fl v (text "EXCEPTION"))) [
        | inl i ↦ (c, rw (e, i) q)
        | inr i ↦ (null, rw (e, i))
      ]

  generate_notes-Returns : (r : Row F) → HasStatus r → Returns (generate_notes fl pd stamp_text r)
  unfolding generate_notes
  generate_notes-Returns r (v, e) = rw e (_, refl)

  put-HasStatus : (c : String) (v : Cell F) (r : Row F) → HasStatus r → HasStatus (put c v r)
  put-HasStatus c v r (w, e) = elim (Bool-cases (c == "status")) [
    | inl i ↦ (v, rw (item-put, i))
    | inr i ↦ (w, rw (item-put, i) e)
  ]

  put_all-HasStatus :
      (c : String) (vs : List (Cell F)) (rs : List (Row F))
      → All HasStatus rs
      → All HasStatus (put_all c vs rs)
  unfolding put_all
  put_all-HasStatus c [] rs h = tt
  put_all-HasStatus c (v ∷ vs) [] h = tt
  put_all-HasStatus c (v ∷ vs) (r ∷ rs) (h, t) =
      (put-HasStatus c v r h, put_all-HasStatus c vs rs t)

  Written-HasStatus :
      (m r : Row F)
      → Unit {0}
      → Written pd (status_step fl pd stamp_text doc) "status" m r
      → HasStatus r
  Written-HasStatus m r u (y, v, h, k, e) = (v, rw (e, item-put))

  -- With pandas as documented, if `classify_record` returns for every merged row, then the other
  -- columns raise nothing: `classify_all` returns a table.
  pub classify_all-Returns :
      (merged : Frame F)
      → All (λ m. Returns (classify_record fl pd stamp_text m)) merged.rows
      → Returns (classify_all fl pd stamp_text merged)
  unfolding classify_all assign
  classify_all-Returns merged h =
      let (ss, hs) = map_result_total (classify_record fl pd stamp_text) merged.rows h in
      let rows1 = put_all "status" (pd.infer (map text ss)) merged.rows in
      let ok1 : All HasStatus rows1 =
        All-All₂ Written-HasStatus merged.rows rows1 (All-unit merged.rows)
          (status_column fl pd stamp_text doc merged.rows ss hs) in
      let (ds, hd) =
        map_result_total (compute_discrepancy fl pd stamp_text) rows1
          (All-map compute_discrepancy-Returns rows1 ok1) in
      let rows2 = put_all "discrepancy_amount" (pd.infer ds) rows1 in
      let rows3 =
        put_all "requires_investigation" (map (is_exception fl pd stamp_text) rows2) rows2 in
      let ok3 : All HasStatus rows3 =
        put_all-HasStatus "requires_investigation" (map (is_exception fl pd stamp_text) rows2) rows2
          (put_all-HasStatus "discrepancy_amount" (pd.infer ds) rows1 ok1) in
      let (ns, hn) =
        map_result_total (generate_notes fl pd stamp_text) rows3
          (All-map generate_notes-Returns rows3 ok3) in
      rw (hs, hd, hn) (_, refl)
