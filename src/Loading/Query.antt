-- ===== src/Loading/Query.antt =====
-- The SQL query of `_load_internal_payments` of
-- data-processing-service/app/services/reconciliation_service.py, over the rows of `payments`, of
-- which only the columns that it reads are kept. `date_of` is PostgreSQL's day of a time at UTC, and
-- `before` its order of texts.
use mathlib.Core.Path.{subst}
use global_payments_api.Prelude.{
  ◌⊎◌, ◌↔◌, eq_iff, arith, ℕ, String, ◌==◌, ◌≡◌, sym, ap, ◌∙◌, inl, inr, Bool, true, false, ◌&&◌,
  ◌||◌, eqb, if◌then◌else◌, List, [], ◌∷◌, Any, All, All-map, select, Bool-cases,
}
use global_payments_api.Python.Date.{Date}
use global_payments_api.Services.{Payment}

abbrev same_date : Date → Date → Bool
same_date a b = eqb a.year b.year && (eqb a.month b.month && eqb a.day b.day)

-- One of the payments is this one.
abbrev pub IsIn : Payment → List Payment → Type 0
IsIn p = Any (λ q. q ≡ p)

module _ (date_of : ℕ → Date) (before : String → String → Bool) where
  -- `WHERE status IN ('COMPLETED', 'FAILED') AND DATE(created_at AT TIME ZONE 'UTC') = :target_date`
  unfoldable pub is_wanted : Date → Payment → Bool
  is_wanted target_date p =
      (p.status == "COMPLETED" || p.status == "FAILED")
      && same_date (date_of p.created_at) target_date

  -- A payment that is over, and was made on the day.
  abbrev pub IsDue : Date → Payment → Type 0
  IsDue target_date p =
      ((p.status ≡ "COMPLETED") ⊎ (p.status ≡ "FAILED")) × (date_of p.created_at ≡ target_date)

  same_date_iff : (a b : Date) → (same_date a b ≡ true) ↔ (a ≡ b)
  same_date_iff a b = (
    λ h. λ i. record {
      year = (year_of a b h) i;
      month = (month_of a b h) i;
      day = (day_of a b h) i;
    },
    λ e. subst (λ x. same_date a x ≡ true) e (same_date_refl a),
  )
    where
      year_of : (a b : Date) → same_date a b ≡ true → a.year ≡ b.year
      year_of a b h = ground arith

      month_of : (a b : Date) → same_date a b ≡ true → a.month ≡ b.month
      month_of a b h = ground arith

      day_of : (a b : Date) → same_date a b ≡ true → a.day ≡ b.day
      day_of a b h = ground arith

      same_date_refl : (a : Date) → same_date a a ≡ true
      same_date_refl a = ground arith

  over_and_true_iff :
      (s : String) (t : Bool)
      → (((s == "COMPLETED" || s == "FAILED") && t) ≡ true)
        ↔ (((s ≡ "COMPLETED") ⊎ (s ≡ "FAILED")) × (t ≡ true))
  over_and_true_iff s true = (
    λ h. ground (arith, eq_iff s "COMPLETED", eq_iff s "FAILED"),
    λ h. ground (arith, eq_iff s "COMPLETED", eq_iff s "FAILED"),
  )
  over_and_true_iff s false = (λ h. ground arith, λ h. ground arith)

  is_wanted_iff : (d : Date) (p : Payment) → (is_wanted d p ≡ true) ↔ IsDue d p
  unfolding is_wanted
  is_wanted_iff d p =
      let (to, from) = same_date_iff (date_of p.created_at) d in
      let (split, join) = over_and_true_iff p.status (same_date (date_of p.created_at) d) in
      (λ h. ((split h).0, to (split h).1), λ h. join (h.0, from h.1))

  -- A row put among ordered ones.
  abbrev pub insert_by_reference : Payment → List Payment → List Payment
  insert_by_reference p [] = p ∷ []
  insert_by_reference p (q ∷ qs) =
      let rest = insert_by_reference p qs in
      if before p.payment_reference q.payment_reference then p ∷ q ∷ qs else q ∷ rest

  -- `ORDER BY payment_reference`
  abbrev pub order_by_reference : List Payment → List Payment
  order_by_reference [] = []
  order_by_reference (p ∷ ps) = insert_by_reference p (order_by_reference ps)

  unfoldable pub select_payments : Date → List Payment → List Payment
  unfolding is_wanted
  select_payments target_date payments =
      order_by_reference (select (is_wanted target_date) payments)

  -- Membership in the list with a row put into it.
  IsIn-insert :
      (p q : Payment) (qs : List Payment)
      → (IsIn p (q ∷ qs) → IsIn p (insert_by_reference q qs))
        × (IsIn p (insert_by_reference q qs) → IsIn p (q ∷ qs))
  IsIn-insert p q [] = ((λ h. h), λ h. h)
  IsIn-insert p q (x ∷ qs) =
      let (to, from) = IsIn-insert p q qs in
      elim (Bool-cases (before q.payment_reference x.payment_reference)) [
        | inl e ↦ rw e ((λ h. h), λ h. h)
        | inr e ↦ rw e (
          λ h. elim h [
            | inl i ↦ inr (to (inl i))
            | inr i ↦ elim i [ inl j ↦ inl j | inr j ↦ inr (to (inr j)) ]
          ],
          λ h. elim h [
            | inl i ↦ inr (inl i)
            | inr i ↦ elim (from i) [ inl j ↦ inl j | inr j ↦ inr (inr j) ]
          ],
        )
      ]

  IsIn-order :
      (p : Payment) (ps : List Payment)
      → (IsIn p ps → IsIn p (order_by_reference ps)) × (IsIn p (order_by_reference ps) → IsIn p ps)
  IsIn-order p [] = ((λ h. h), λ h. h)
  IsIn-order p (q ∷ ps) =
      let (to, from) = IsIn-order p ps in
      let (to', from') = IsIn-insert p q (order_by_reference ps) in
      (
        λ h. to' (elim h [ inl i ↦ inl i | inr i ↦ inr (to i) ]),
        λ h. elim (from' h) [ inl i ↦ inl i | inr i ↦ inr (from i) ],
      )

  IsIn-select :
      (f : Payment → Bool) (p : Payment) (ps : List Payment)
      → (IsIn p (select f ps) → IsIn p ps × (f p ≡ true))
        × (IsIn p ps → f p ≡ true → IsIn p (select f ps))
  IsIn-select f p [] = ((λ h. absurd h), λ h e. h)
  IsIn-select f p (q ∷ ps) =
      let (to, from) = IsIn-select f p ps in
      elim (Bool-cases (f q)) [
        | inl e ↦ rw e (
          λ h. elim h [ inl i ↦ (inl i, sym (ap f i) ∙ e) | inr i ↦ (inr ((to i).0), (to i).1) ],
          λ h k. elim h [ inl i ↦ inl i | inr i ↦ inr (from i k) ],
        )
        | inr e ↦ rw e (
          λ h. (inr ((to h).0), (to h).1),
          λ h k. elim h [ inl i ↦ absurd (true_ne (sym k ∙ sym (ap f i) ∙ e)) | inr i ↦ from i k ],
        )
      ]
    where
      true_ne : ¬ (true ≡ false)
      true_ne e = cc

  -- The result of the query has the payments that are due, and no others.
  pub select_payments-IsIn :
      (d : Date) (p : Payment) (ps : List Payment)
      → IsIn p (select_payments d ps) ↔ (IsIn p ps × IsDue d p)
  unfolding select_payments
  select_payments-IsIn d p ps =
      let (to, from) = IsIn-select (is_wanted d) p ps in
      let (to', from') = IsIn-order p (select (is_wanted d) ps) in
      let (due, wanted) = is_wanted_iff d p in
      (λ h. ((to (from' h)).0, due ((to (from' h)).1)), λ h. to' (from h.0 (wanted h.1)))

  -- Each row is before all the later ones.
  abbrev pub IsOrdered : List Payment → Type 0
  IsOrdered [] = Unit
  IsOrdered (p ∷ ps) =
      All (λ q. before p.payment_reference q.payment_reference ≡ true) ps × IsOrdered ps

  module _ (total : (s t : String) → before s t ≡ false → before t s ≡ true)
      (trans : (s t u : String) → before s t ≡ true → before t u ≡ true → before s u ≡ true) where
    All-insert :
        (P : Payment → Type 0) (p : Payment) (qs : List Payment)
        → P p
        → All P qs
        → All P (insert_by_reference p qs)
    All-insert P p [] h k = (h, tt)
    All-insert P p (q ∷ qs) h k =
        elim (Bool-cases (before p.payment_reference q.payment_reference)) [
          | inl e ↦ rw e (h, k)
          | inr e ↦ rw e (k.0, All-insert P p qs h k.1)
        ]

    insert-IsOrdered :
        (p : Payment) (qs : List Payment) → IsOrdered qs → IsOrdered (insert_by_reference p qs)
    insert-IsOrdered p [] h = (tt, tt)
    insert-IsOrdered p (q ∷ qs) h =
        elim (Bool-cases (before p.payment_reference q.payment_reference)) [
          | inl e ↦ rw e ((e, All-map (λ x. trans _ _ _ e) qs h.0), h)
          | inr e ↦ rw e (All-insert _ p qs (total _ _ e) h.0, insert-IsOrdered p qs h.1)
        ]

    order-IsOrdered : (ps : List Payment) → IsOrdered (order_by_reference ps)
    order-IsOrdered [] = tt
    order-IsOrdered (p ∷ ps) = insert-IsOrdered p (order_by_reference ps) (order-IsOrdered ps)

    -- The rows of the result stand in the order of their references.
    pub select_payments-IsOrdered :
        (d : Date) (ps : List Payment) → IsOrdered (select_payments d ps)
    unfolding select_payments
    select_payments-IsOrdered d ps = order-IsOrdered (select (is_wanted d) ps)
