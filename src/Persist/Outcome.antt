-- ===== src/Persist/Outcome.antt =====
-- The states that `_persist_results` goes through: views with more records, and the effect of saving
-- one batch.
use mathlib.Core.Path.{subst}
use global_payments_api.Prelude.{
  ℕ, suc, ◌*◌, String, ◌≡◌, sym, ap, ◌∙◌, false, List, [], ◌∷◌, ◌++◌, length,
}
use global_payments_api.Python.Raised.{Result, ok, err}
use global_payments_api.Frame.{Row}
use global_payments_api.Models.{ReconciliationRecord}
use global_payments_api.Services.{
  Services, View, IsSession, SameStored, AfterBulkSave, AfterCommit, committed, store_tracked,
}
use global_payments_api.Persist.{batch_size, record_of, then_commit, save_batch}

-- Nothing waits to be written: the tracked run is stored as it is, and no record is staged.
pub record IsIdle {F : Type 0} (v : View F) : Type 0 where
  pub stored : store_tracked v.tracked v.runs ≡ v.runs
  pub inserted : v.fresh ≡ false
  pub nothing_staged : v.staged ≡ []

module _ {F : Type 0} (run_id : String) (ids : ℕ → ℕ) where
  -- The records of all the rows; `n` is the number of the first.
  abbrev pub AllBuilt : ℕ → List (Row F) → List (ReconciliationRecord F) → Type 0
  AllBuilt n [] [] = Unit
  AllBuilt n (row ∷ rows) (r ∷ rs) =
      (record_of run_id (ids n) row ≡ ok r) × AllBuilt (suc n) rows rs
  AllBuilt n _ _ = ⊥

  -- The records of the first of the rows.
  abbrev pub FirstBuilt : ℕ → List (Row F) → List (ReconciliationRecord F) → Type 0
  FirstBuilt n rows [] = Unit
  FirstBuilt n [] (r ∷ rs) = ⊥
  FirstBuilt n (row ∷ rows) (r ∷ rs) =
      (record_of run_id (ids n) row ≡ ok r) × FirstBuilt (suc n) rows rs

-- A view with some more records.
abbrev pub add_records : {F : Type 0} → View F → List (ReconciliationRecord F) → View F
add_records v rs = record v { records = v.records ++ rs }

module _ {F : Type 0} (svc : Services F) (sess : IsSession svc) where
  open svc use {World, view}

  abbrev pub AfterSave : View F → List (ReconciliationRecord F) → Result (Unit {0}) × World → Type 0
  AfterSave v rs (ok u, w') = view w' ≡ add_records v rs
  AfterSave v rs (err e, w') = SameStored v (view w')

  committed-staged :
      (v : View F) (rs : List (ReconciliationRecord F))
      → IsIdle v
      → committed (record v { staged = v.staged ++ rs }) ≡ add_records v rs
  committed-staged v rs idle = λ i. record {
    runs = idle.stored i;
    records = v.records ++ (idle.nothing_staged i ++ rs);
    tracked = v.tracked;
    fresh = sym idle.inserted i;
    staged = sym idle.nothing_staged i;
  }

  AfterCommit-AfterSave :
      (v u : View F) (rs : List (ReconciliationRecord F)) (m : Result (Unit {0}) × World)
      → IsIdle v
      → u ≡ record v { staged = v.staged ++ rs }
      → AfterCommit svc u m
      → AfterSave v rs m
  AfterCommit-AfterSave v u rs (ok _, w') idle e h = h ∙ ap committed e ∙ committed-staged v rs idle
  AfterCommit-AfterSave v u rs (err _, w') idle e h = record {
    runs = h.runs ∙ ap (λ (x : View F). x.runs) e;
    records = h.records ∙ ap (λ (x : View F). x.records) e;
    nothing_staged = h.nothing_staged;
  }

  then_commit-AfterSave :
      (v : View F) (rs : List (ReconciliationRecord F)) (m : Result (Unit {0}) × World)
      → IsIdle v
      → AfterBulkSave svc rs v m
      → AfterSave v rs (then_commit svc m)
  then_commit-AfterSave v rs (err e, w1) idle h = h.0
  then_commit-AfterSave v rs (ok u, w1) idle h =
      AfterCommit-AfterSave v (view w1) rs (svc.commit w1) idle h (sess.commit_lem w1)

  -- A batch is stored whole, or the tables are as before.
  pub save_batch-AfterSave :
      (v : View F) (rs : List (ReconciliationRecord F)) (w : World)
      → view w ≡ v
      → IsIdle v
      → AfterSave v rs (save_batch svc rs w)
  unfolding save_batch
  save_batch-AfterSave v rs w e idle =
      then_commit-AfterSave v rs (svc.bulk_save rs w) idle
        (subst (λ u. AfterBulkSave svc rs u (svc.bulk_save rs w)) e (sess.bulk_save_lem rs w))

-- How the loop over all the rows ends. Where it returns, there is a record of each row, in order;
-- where it raises, there are whole batches of the records of the first rows.
abbrev pub PersistOutcome :
    {F : Type 0} (svc : Services F)
    → String
    → (ℕ → ℕ)
    → List (Row F)
    → View F
    → Result (Unit {0}) × svc.World
    → Type 0
PersistOutcome {F} svc run_id ids rows v (ok u, w') =
    (all : List (ReconciliationRecord F)) × AllBuilt run_id ids 0 rows all
    × (svc.view w' ≡ add_records v all)
PersistOutcome {F} svc run_id ids rows v (err e, w') =
    (saved : List (ReconciliationRecord F)) × (k : ℕ) × FirstBuilt run_id ids 0 rows saved
    × (length saved ≡ k * batch_size)
    × SameStored (add_records v saved) (svc.view w')
