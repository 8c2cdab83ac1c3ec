-- ===== src/Schema/Migration.antt =====
-- The migration up and down again.
use mathlib.Core.Path.{subst}
use global_payments_api.Prelude.{
  String, ◌==◌, eq_iff, ◌≡◌, refl, sym, ap, ◌∙◌, false, Bool-cases, inl, inr, List, [], ◌∷◌, Option,
  none, some, if◌then◌else◌,
}
use global_payments_api.Python.Raised.{ok}
use global_payments_api.Schema.{
  Operation, upgrade, downgrade, runs_table, records_table, run_columns, record_columns, Catalogue,
  unless_on, effect, IsAllowed, Database, LeadsTo, IsDatabase, perform_all,
}

abbrev effects : List Operation → Catalogue → Catalogue
effects [] s = s
effects (op ∷ ops) s = effects ops (effect op s)

abbrev AllAllowed : List Operation → Catalogue → Type 0
AllAllowed [] s = Unit
AllAllowed (op ∷ ops) s = IsAllowed op s × AllAllowed ops (effect op s)

perform_all-LeadsTo :
    (db : Database) (lawful : IsDatabase db) (ops : List Operation) (s : Catalogue) (w : db.World)
    → db.catalogue w ≡ s
    → AllAllowed ops s
    → LeadsTo db (perform_all db ops w) (effects ops s)
perform_all-LeadsTo db lawful [] s w e h = (w, refl, e)
perform_all-LeadsTo db lawful (op ∷ ops) s w e (h, hs) =
    let (w1, q, e1) = lawful.perform_lem op w (subst (IsAllowed op) (sym e) h) in
    rw q (perform_all-LeadsTo db lawful ops (effect op s) w1 (e1 ∙ ap (effect op) e) hs)

-- The names of the migration are free.
pub record IsFresh (s : Catalogue) : Type 0 where
  pub no_runs : s.table runs_table ≡ none
  pub no_records : s.table records_table ≡ none
  pub no_runs_run_date : s.index "idx_runs_run_date" ≡ none
  pub no_runs_status : s.index "idx_runs_status" ≡ none
  pub no_recon_payment_ref : s.index "idx_recon_payment_ref" ≡ none
  pub no_recon_run_id : s.index "idx_recon_run_id" ≡ none
  pub no_recon_status : s.index "idx_recon_status" ≡ none
  pub no_recon_investigation : s.index "idx_recon_investigation" ≡ none
  -- an index is of a table that is there
  pub no_index_on :
      (j t : String) (cols : List String)
      → s.index j ≡ some (t, cols)
      → ((t == runs_table) ≡ false) × ((t == records_table) ≡ false)

upgrade-AllAllowed : (s : Catalogue) → IsFresh s → AllAllowed upgrade s
unfolding upgrade
upgrade-AllAllowed s f = (
  f.no_runs,
  (
    (f.no_runs_run_date, (_, refl)),
    (
      (f.no_runs_status, (_, refl)),
      (
        f.no_records,
        (
          (f.no_recon_payment_ref, (_, refl)),
          (
            (f.no_recon_run_id, (_, refl)),
            ((f.no_recon_status, (_, refl)), ((f.no_recon_investigation, (_, refl)), tt)),
          ),
        ),
      ),
    ),
  ),
)

-- What both drops leave of an index.
abbrev dropped : Option (String × List String) → Option (String × List String)
dropped o = unless_on "reconciliation_runs" (unless_on "reconciliation_records" o)

-- An index of a dropped table, under a name that was free.
dropped_index :
    (s : Catalogue) (i j t : String) (cols : List String) (rest : Option (String × List String))
    → dropped (some (t, cols)) ≡ none
    → s.index i ≡ none
    → dropped rest ≡ s.index j
    → dropped (if i == j then some (t, cols) else rest) ≡ s.index j
dropped_index s i j t cols rest d free h = elim (Bool-cases (i == j)) [
  | inl e ↦ rw e (d ∙ sym free ∙ ap s.index ((eq_iff i j).0 e))
  | inr e ↦ rw e h
]

dropped_other :
    (o : Option (String × List String))
    → ((t : String) (cols : List String)
        → o ≡ some (t, cols)
        → ((t == runs_table) ≡ false) × ((t == records_table) ≡ false))
    → dropped o ≡ o
dropped_other none h = refl
dropped_other (some (t, cols)) h = let (a, b) = h t cols refl in rw (b, a)

restored_index :
    (s : Catalogue)
    → IsFresh s
    → (j : String) → (effects downgrade (effects upgrade s)).index j ≡ s.index j
unfolding upgrade downgrade
restored_index s f j =
    dropped_index s "idx_recon_investigation" j "reconciliation_records" _ _ refl
      f.no_recon_investigation
      (dropped_index s "idx_recon_status" j "reconciliation_records" _ _ refl f.no_recon_status (
        dropped_index s "idx_recon_run_id" j "reconciliation_records" _ _ refl f.no_recon_run_id (
          dropped_index s "idx_recon_payment_ref" j "reconciliation_records" _ _ refl
            f.no_recon_payment_ref
            (dropped_index s "idx_runs_status" j "reconciliation_runs" _ _ refl f.no_runs_status (
              dropped_index s "idx_runs_run_date" j "reconciliation_runs" _ _ refl
                f.no_runs_run_date (dropped_other (s.index j) (f.no_index_on j)))))))

restored_table :
    (s : Catalogue)
    → IsFresh s
    → (m : String) → (effects downgrade (effects upgrade s)).table m ≡ s.table m
unfolding upgrade downgrade
restored_table s f m = elim (Bool-cases ("reconciliation_runs" == m)) [
  | inl e ↦ rw e (sym f.no_runs ∙ ap s.table ((eq_iff "reconciliation_runs" m).0 e))
  | inr e ↦ rw e (elim (Bool-cases ("reconciliation_records" == m)) [
    | inl q ↦ rw q (sym f.no_records ∙ ap s.table ((eq_iff "reconciliation_records" m).0 q))
    | inr q ↦ rw q
  ])
]

-- On a database in which the names of the migration are free and each index is of another table,
-- `upgrade` returns with the columns of both tables in place, and `downgrade` after it returns and
-- leaves every table and every index as it was before.
pub downgrade-upgrade :
    (db : Database)
    → IsDatabase db
    → (w : db.World) → IsFresh (db.catalogue w)
    → (w1 w2 : db.World) × (perform_all db upgrade w ≡ (ok tt, w1))
      × ((db.catalogue w1).table runs_table ≡ some run_columns)
      × ((db.catalogue w1).table records_table ≡ some record_columns)
      × (perform_all db downgrade w1 ≡ (ok tt, w2))
      × (db.catalogue w2 ≡ db.catalogue w)
unfolding upgrade downgrade
downgrade-upgrade db lawful w f =
    let s = db.catalogue w in
    let (w1, up, e1) = perform_all-LeadsTo db lawful upgrade s w refl (upgrade-AllAllowed s f) in
    let (w2, down, e2) =
      perform_all-LeadsTo db lawful downgrade (effects upgrade s) w1 e1
        ((_, refl), ((_, refl), tt)) in
    (
      w1,
      w2,
      up,
      ap (λ (q : Catalogue). q.table runs_table) e1,
      ap (λ (q : Catalogue). q.table records_table) e1,
      down,
      e2 ∙ (λ i. record {
        table = λ m. restored_table s f m i;
        index = λ j. restored_index s f j i;
      }),
    )
