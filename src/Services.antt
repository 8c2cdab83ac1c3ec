-- ===== src/Services.antt =====
-- The services that the reconciliation job calls: the database session (SQLAlchemy), the object
-- store (S3) and the clock. They are a parameter; `IsSession` is what the job relies on.
pub mod Memory
use global_payments_api.Prelude.{
  ℕ, zero, suc, ◌⊎◌, ℤ, String, ◌==◌, eq_iff, eq_refl, Bool-cases, inl, inr, arith, ◌≡◌, Bool, true,
  false, List, [], ◌∷◌, ◌++◌, Option, none, some, if◌then◌else◌,
}
use global_payments_api.Python.Raised.{Result, ok, err, retry_error, Exec}
use global_payments_api.Frame.{Frame}
use global_payments_api.Python.Date.{Date}
use global_payments_api.Models.{ReconciliationRun, ReconciliationRecord}

-- A row of the query on the table `payments`.
pub record Payment : Type 0 where
  pub payment_reference : String
  pub payment_id : String
  pub amount_minor_units : ℤ
  pub currency : String
  pub status : String
  pub clearing_reference : Option String
  pub created_at : ℕ
  pub updated_at : ℕ

-- What a session shows of its database: the committed rows of both tables, the run object that it
-- tracks and whether that is still to be inserted, and the records that the open transaction adds.
pub record View (F : Type 0) : Type 0 where
  pub runs : List (ReconciliationRun F)
  pub records : List (ReconciliationRecord F)
  pub tracked : Option (ReconciliationRun F)
  pub fresh : Bool
  pub staged : List (ReconciliationRecord F)

pub record Services (F : Type 0) : Type 1 where
  pub World : Type 0
  pub add_run : ReconciliationRun F → World → World  -- `db.session.add(run)`
  pub set_run : ReconciliationRun F → World → World  -- assignments to the run's columns
  pub bulk_save : List (ReconciliationRecord F) → Exec World (Unit {0})
  pub commit : Exec World (Unit {0})
  -- the query of `_load_internal_payments`
  pub query_payments : Date → Exec World (List Payment)
  pub get_object : String → String → Exec World String
  pub put_object : String → String → String → Exec World (Unit {0})
  -- tenacity's `@retry(stop=stop_after_attempt(3), wait=…)` of a function
  pub retry : Exec World (Frame F) → Exec World (Frame F)
  pub now : World → ℕ
  pub view : World → View F
  -- a flush has failed, and no rollback was made since
  pub needs_rollback : World → Bool

module _ {F : Type 0} where
  -- The runs with one of them written: in the place of that with its key, or as a new row.
  unfoldable pub store_run :
      ReconciliationRun F → List (ReconciliationRun F) → List (ReconciliationRun F)
  store_run r [] = r ∷ []
  store_run r (q ∷ qs) = if q.id == r.id then r ∷ qs else q ∷ store_run r qs

  abbrev pub store_tracked :
      Option (ReconciliationRun F) → List (ReconciliationRun F) → List (ReconciliationRun F)
  store_tracked none runs = runs
  store_tracked (some r) runs = store_run r runs

  unfoldable pub find_run : String → List (ReconciliationRun F) → Option (ReconciliationRun F)
  find_run i [] = none
  find_run i (q ∷ qs) = if q.id == i then some q else find_run i qs

  -- The row with the key of the run, or the run if there is none.
  abbrev pub stored_or : ReconciliationRun F → Option (ReconciliationRun F) → ReconciliationRun F
  stored_or run none = run
  stored_or run (some q) = q

  pub id-stored_or :
      (run : ReconciliationRun F) (i : String) (qs : List (ReconciliationRun F))
      → run.id ≡ i
      → (stored_or run (find_run i qs)).id ≡ i
  unfolding find_run
  id-stored_or run i [] h = h
  id-stored_or run i (q ∷ qs) h = elim (Bool-cases (q.id == i)) [
    | inl e ↦ rw e ((eq_iff q.id i).0 e)
    | inr e ↦ rw e (id-stored_or run i qs h)
  ]

  pub find_run-store_run :
      (r : ReconciliationRun F) (qs : List (ReconciliationRun F))
      → find_run r.id (store_run r qs) ≡ some r
  unfolding find_run store_run
  find_run-store_run r [] = rw eq_refl
  find_run-store_run r (q ∷ qs) = elim (Bool-cases (q.id == r.id)) [
    | inl e ↦ rw (e, eq_refl)
    | inr e ↦ rw (e, e) (find_run-store_run r qs)
  ]

  -- Storing a run leaves the runs with other keys as they are.
  pub find_run-store_ne :
      (i : String) (r : ReconciliationRun F) (qs : List (ReconciliationRun F))
      → (r.id == i) ≡ false
      → find_run i (store_run r qs) ≡ find_run i qs
  unfolding find_run store_run
  find_run-store_ne i r [] h = rw h
  find_run-store_ne i r (q ∷ qs) h =
      ground (arith, find_run-store_ne i r qs h, eq_iff q.id r.id, eq_iff q.id i, eq_iff r.id i)

  abbrev pub committed : View F → View F
  committed v = record v {
    runs = store_tracked v.tracked v.runs;
    fresh = false;
    records = v.records ++ v.staged;
    staged = [];
  }

-- The committed rows are the same, and no record is staged: a transaction that has failed is rolled
-- back.
pub record SameStored {F : Type 0} (v v' : View F) : Type 0 where
  pub runs : v'.runs ≡ v.runs
  pub records : v'.records ≡ v.records
  pub nothing_staged : v'.staged ≡ []

abbrev pub AfterBulkSave :
    {F : Type 0} (svc : Services F)
    → List (ReconciliationRecord F)
    → View F
    → Result (Unit {0}) × svc.World
    → Type 0
AfterBulkSave svc rs v (ok u, w') = svc.view w' ≡ record v { staged = v.staged ++ rs }
AfterBulkSave svc rs v (err e, w') = SameStored v (svc.view w') × (svc.needs_rollback w' ≡ true)

abbrev pub AfterCommit :
    {F : Type 0} (svc : Services F) → View F → Result (Unit {0}) × svc.World → Type 0
AfterCommit svc v (ok u, w') = svc.view w' ≡ committed v
AfterCommit svc v (err e, w') = SameStored v (svc.view w')

abbrev pub Fails : {A W : Type 0} → Result A × W → Type 0
Fails (ok a, w) = ⊥
Fails (err e, w) = Unit

-- No new row is to be inserted under a key that is taken.
abbrev pub CanCommit : {F : Type 0} → View F → Type 0
CanCommit {F} v =
    (v.fresh ≡ false)
    ⊎ ((r : ReconciliationRun F) × (v.tracked ≡ some r) × (find_run r.id v.runs ≡ none))

-- A function that is called again after a failure, so often at most; then `RetryError`.
abbrev pub after_attempt : {A W : Type 0} → Result A × W → Exec W A → Result A × W
after_attempt (ok a, w) more = (ok a, w)
after_attempt (err e, w) more = more w

abbrev pub attempts : {A W : Type 0} → ℕ → Exec W A → Exec W A
attempts zero f w = (err (record { kind = retry_error; text = "RetryError" }), w)
attempts (suc n) f w = after_attempt (f w) (attempts n f)

pub record IsSession {F : Type 0} (svc : Services F) : Type 0 where
  pub view-add_run :
      (r : ReconciliationRun F) (w : svc.World)
      → svc.view (svc.add_run r w) ≡ record (svc.view w) { tracked = some r; fresh = true }
  pub view-set_run :
      (r : ReconciliationRun F) (w : svc.World)
      → svc.view (svc.set_run r w) ≡ record (svc.view w) { tracked = some r }
  pub rollback-set_run :
      (r : ReconciliationRun F) (w : svc.World)
      → svc.needs_rollback (svc.set_run r w) ≡ svc.needs_rollback w
  -- A transaction is stored whole or not at all.
  pub bulk_save_lem :
      (rs : List (ReconciliationRecord F)) (w : svc.World)
      → AfterBulkSave svc rs (svc.view w) (svc.bulk_save rs w)
  pub commit_lem : (w : svc.World) → AfterCommit svc (svc.view w) (svc.commit w)
  -- "This Session's transaction has been rolled back due to a previous exception during flush."
  pub commit_blocked : (w : svc.World) → svc.needs_rollback w ≡ true → Fails (svc.commit w)
  -- A new row with a key that is taken is refused.
  pub commit_clash :
      (w : svc.World) (r q : ReconciliationRun F)
      → (svc.view w).tracked ≡ some r
      → (svc.view w).fresh ≡ true
      → find_run r.id (svc.view w).runs ≡ some q
      → Fails (svc.commit w)
  pub retry_lem : (f : Exec svc.World (Frame F)) (w : svc.World) → svc.retry f w ≡ attempts 3 f w
  -- Reading, and the object store, leave the tables alone.
  pub view-query : (d : Date) (w : svc.World) → svc.view (svc.query_payments d w).1 ≡ svc.view w
  pub view-get : (b k : String) (w : svc.World) → svc.view (svc.get_object b k w).1 ≡ svc.view w
  pub view-put : (b k t : String) (w : svc.World) → svc.view (svc.put_object b k t w).1 ≡ svc.view w
