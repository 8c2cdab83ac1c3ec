-- ===== src/Persist/Batches.antt =====
-- The batches of `_persist_results`: what is in the table after the loop, however it ends.
use mathlib.Core.List.{append_assoc, append-nil}
use mathlib.Core.Path.{subst}
use global_payments_api.Prelude.{
  ℕ, suc, ◌*◌, ◌<◌, String, ◌≡◌, refl, sym, ap, ◌∙◌, ◌⊎◌, inl, inr, List, [], ◌∷◌, ◌++◌, arith,
  length, length-append, leb, Bool-cases,
}
use global_payments_api.Python.Raised.{Raised, Result, ok, err, Exec}
use global_payments_api.Frame.{Row, Frame}
use global_payments_api.Models.{ReconciliationRecord}
use global_payments_api.Services.{Services, View, IsSession, SameStored}
use global_payments_api.Persist.Outcome.{
  IsIdle, AllBuilt, FirstBuilt, add_records, AfterSave, save_batch-AfterSave, PersistOutcome,
}
use global_payments_api.Persist.{
  batch_size, record_of, save_batch, after_batch, next_row, persist_rows, persist_results,
}

module _ {F : Type 0} (svc : Services F) (sess : IsSession svc) (size : ℕ) (run_id : String)
    (ids : ℕ → ℕ) where
  open svc use {World, view}

  -- Nothing was saved, or the waiting records and those of the next rows.
  abbrev Saved : ℕ → List (Row F) → (buffer saved : List (ReconciliationRecord F)) → Type 0
  Saved n rows buffer saved =
      (saved ≡ [])
      ⊎ ((rest : List (ReconciliationRecord F)) × FirstBuilt run_id ids n rows rest
          × (saved ≡ buffer ++ rest))

  -- What the loop has done when it ends: all is stored, or whole batches of the first rows are.
  abbrev Persisted :
      ℕ → View F → List (Row F) → List (ReconciliationRecord F) → Result (Unit {0}) × World → Type 0
  Persisted n v rows buffer (ok u, w') =
      (rest : List (ReconciliationRecord F)) × AllBuilt run_id ids n rows rest
      × (view w' ≡ add_records v (buffer ++ rest))
  Persisted n v rows buffer (err e, w') =
      (saved : List (ReconciliationRecord F)) × (k : ℕ) × Saved n rows buffer saved
      × (length saved ≡ k * size)
      × SameStored (add_records v saved) (view w')

  add_records-nil : (v : View F) → add_records v [] ≡ v
  add_records-nil v = λ i. record v { records = append-nil v.records i }

  regroup :
      (v : View F) (buffer : List (ReconciliationRecord F)) (r : ReconciliationRecord F)
      (rest : List (ReconciliationRecord F))
      → add_records (add_records v (buffer ++ r ∷ [])) rest ≡ add_records v (buffer ++ r ∷ rest)
  regroup v buffer r rest = λ i. record v {
    records =
        (append_assoc v.records (buffer ++ r ∷ []) rest
            ∙ ap (λ l. v.records ++ l) (append_assoc buffer (r ∷ []) rest))
          i;
  }

  nothing_saved :
      (n : ℕ) (v : View F) (rows : List (Row F)) (buffer : List (ReconciliationRecord F))
      (e : Raised) (w' : World)
      → SameStored v (view w')
      → Persisted n v rows buffer (err e, w')
  nothing_saved n v rows buffer e w' h = (
    [],
    0,
    inl refl,
    omega arith,
    record {
      runs = h.runs;
      records = h.records ∙ sym (append-nil v.records);
      nothing_staged = h.nothing_staged;
    },
  )

  Saved-empty :
      (n : ℕ) (rows : List (Row F)) (saved : List (ReconciliationRecord F))
      → Saved n rows [] saved
      → FirstBuilt run_id ids n rows saved
  Saved-empty n rows saved (inl e) = subst (FirstBuilt run_id ids n rows) (sym e) tt
  Saved-empty n rows saved (inr (rest, built, e)) =
      subst (FirstBuilt run_id ids n rows) (sym e) built

  -- After a full buffer has been saved, the loop goes on with an empty one.
  resume :
      (n : ℕ) (v : View F) (row : Row F) (rows : List (Row F))
      (buffer : List (ReconciliationRecord F)) (r : ReconciliationRecord F)
      (m : Result (Unit {0}) × World)
      → record_of run_id (ids n) row ≡ ok r
      → length (buffer ++ r ∷ []) ≡ size
      → Persisted (suc n) (add_records v (buffer ++ r ∷ [])) rows [] m
      → Persisted n v (row ∷ rows) buffer m
  resume n v row rows buffer r (ok u, w') e full (rest, built, h) =
      (r ∷ rest, (e, built), h ∙ regroup v buffer r rest)
  resume n v row rows buffer r (err x, w') e full (saved, k, which, len, h) = (
    buffer ++ r ∷ saved,
    suc k,
    inr (r ∷ saved, (e, Saved-empty (suc n) rows saved which), refl),
    grind (arith, length-append buffer (r ∷ saved), length-append buffer (r ∷ []), full, len),
    record {
      runs = h.runs;
      records = h.records ∙ ap (λ (x : View F). x.records) (regroup v buffer r saved);
      nothing_staged = h.nothing_staged;
    },
  )

  -- A row whose record waits in the buffer.
  append_row :
      (n : ℕ) (v : View F) (row : Row F) (rows : List (Row F))
      (buffer : List (ReconciliationRecord F)) (r : ReconciliationRecord F)
      (m : Result (Unit {0}) × World)
      → record_of run_id (ids n) row ≡ ok r
      → Persisted (suc n) v rows (buffer ++ r ∷ []) m
      → Persisted n v (row ∷ rows) buffer m
  append_row n v row rows buffer r (ok u, w') e (rest, built, h) =
      (r ∷ rest, (e, built), h ∙ ap (add_records v) (append_assoc buffer (r ∷ []) rest))
  append_row n v row rows buffer r (err x, w') e (saved, k, inl none_saved, len, h) =
      (saved, k, inl none_saved, len, h)
  append_row n v row rows buffer r (err x, w') e (saved, k, inr (rest, built, q), len, h) =
      (saved, k, inr (r ∷ rest, (e, built), q ∙ append_assoc buffer (r ∷ []) rest), len, h)

  IsIdle-add :
      (v : View F) (rs : List (ReconciliationRecord F)) → IsIdle v → IsIdle (add_records v rs)
  IsIdle-add v rs idle = record {
    stored = idle.stored;
    inserted = idle.inserted;
    nothing_staged = idle.nothing_staged;
  }

  after_batch-Persisted :
      (n : ℕ) (v : View F) (row : Row F) (rows : List (Row F))
      (buffer : List (ReconciliationRecord F)) (r : ReconciliationRecord F)
      (rest : Exec World (Unit {0})) (m : Result (Unit {0}) × World)
      → record_of run_id (ids n) row ≡ ok r
      → length (buffer ++ r ∷ []) ≡ size
      → ((w1 : World)
          → view w1 ≡ add_records v (buffer ++ r ∷ [])
          → Persisted (suc n) (add_records v (buffer ++ r ∷ [])) rows [] (rest w1))
      → AfterSave svc sess v (buffer ++ r ∷ []) m
      → Persisted n v (row ∷ rows) buffer (after_batch svc m rest)
  after_batch-Persisted n v row rows buffer r rest (ok u, w1) e full go h =
      resume n v row rows buffer r (rest w1) e full (go w1 h)
  after_batch-Persisted n v row rows buffer r rest (err x, w1) e full go h =
      nothing_saved n v (row ∷ rows) buffer x w1 h

  flush_rest-Persisted :
      (n : ℕ) (v : View F) (buffer : List (ReconciliationRecord F)) (m : Result (Unit {0}) × World)
      → AfterSave svc sess v buffer m
      → Persisted n v [] buffer m
  flush_rest-Persisted n v buffer (ok u, w') h =
      ([], tt, h ∙ ap (add_records v) (sym (append-nil buffer)))
  flush_rest-Persisted n v buffer (err x, w') h = nothing_saved n v [] buffer x w' h

  -- One row of the loop, where `rest` is the loop over those behind it.
  next_row-Persisted :
      (n : ℕ) (v : View F) (row : Row F) (rows : List (Row F))
      (buffer : List (ReconciliationRecord F))
      (rest : List (ReconciliationRecord F) → Exec World (Unit {0}))
      → ((b : List (ReconciliationRecord F)) (u : View F) (w1 : World)
          → view w1 ≡ u
          → IsIdle u
          → length b < size
          → Persisted (suc n) u rows b (rest b w1))
      → (built : Result (ReconciliationRecord F)) (w : World) → view w ≡ v
      → IsIdle v
      → length buffer < size
      → record_of run_id (ids n) row ≡ built
      → Persisted n v (row ∷ rows) buffer (next_row svc size rest buffer built w)
  next_row-Persisted n v row rows buffer rest go (err x) w e idle room q =
      nothing_saved n v (row ∷ rows) buffer x w (record {
        runs = ap (λ (u : View F). u.runs) e;
        records = ap (λ (u : View F). u.records) e;
        nothing_staged = ap (λ (u : View F). u.staged) e ∙ idle.nothing_staged;
      })
  next_row-Persisted n v row rows buffer rest go (ok r) w e idle room q =
      let batch = buffer ++ r ∷ [] in
      let longer = length-append buffer (r ∷ []) in
      elim (Bool-cases (leb size (length batch))) [
        | inl full ↦ rw full (
            after_batch-Persisted n v row rows buffer r (rest []) (save_batch svc batch w) q
              (ground (arith, longer))
              (λ w1 e1.
                go [] (add_records v batch) w1 e1 (IsIdle-add v batch idle) (omega (arith, room)))
              (save_batch-AfterSave svc sess v batch w e idle))
        | inr waiting ↦
            rw waiting (
              append_row n v row rows buffer r (rest batch w) q
                (go batch v w e idle (ground arith)))
      ]

  -- The loop from any buffer that is not full.
  persist_rows-Persisted :
      (n : ℕ) (rows : List (Row F)) (buffer : List (ReconciliationRecord F)) (v : View F)
      (w : World)
      → view w ≡ v
      → IsIdle v
      → length buffer < size
      → Persisted n v rows buffer (persist_rows svc size run_id ids n rows buffer w)
  unfolding persist_rows
  persist_rows-Persisted n [] [] v w e idle room = ([], tt, e ∙ sym (add_records-nil v))
  persist_rows-Persisted n [] (r ∷ rs) v w e idle room =
      flush_rest-Persisted n v (r ∷ rs) (save_batch svc (r ∷ rs) w)
        (save_batch-AfterSave svc sess v (r ∷ rs) w e idle)
  persist_rows-Persisted n (row ∷ rows) buffer v w e idle room =
      next_row-Persisted n v row rows buffer (persist_rows svc size run_id ids (suc n) rows)
        (λ b v' w1. persist_rows-Persisted (suc n) rows b v' w1) (record_of run_id (ids n) row) w e
        idle room refl

Persisted-outcome :
    {F : Type 0} (svc : Services F) (sess : IsSession svc) (run_id : String) (ids : ℕ → ℕ)
    (rows : List (Row F)) (v : View F) (m : Result (Unit {0}) × svc.World)
    → Persisted svc sess batch_size run_id ids 0 v rows [] m
    → PersistOutcome svc run_id ids rows v m
Persisted-outcome svc sess run_id ids rows v (ok u, w') h = h
Persisted-outcome svc sess run_id ids rows v (err e, w') (saved, k, which, len, h) =
    (saved, k, Saved-empty svc sess batch_size run_id ids 0 rows saved which, len, h)

-- On a session in which nothing waits to be written: where `persist_results` returns, every row has
-- its record, in order, at the end of the table. Where it raises, the table has grown by whole
-- batches of 500, the records of the first rows, and the runs are as before.
pub persist_results-PersistOutcome :
    {F : Type 0} (svc : Services F)
    → IsSession svc
    → (ids : ℕ → ℕ) (results_df : Frame F) (run_id : String) (w : svc.World) → IsIdle (svc.view w)
    → PersistOutcome svc run_id ids results_df.rows
        (svc.view w)
        (persist_results svc ids results_df run_id w)
unfolding persist_results
persist_results-PersistOutcome svc sess ids results_df run_id w idle =
    Persisted-outcome svc sess run_id ids results_df.rows (svc.view w)
      (persist_rows svc batch_size run_id ids 0 results_df.rows [] w)
      (persist_rows-Persisted svc sess batch_size run_id ids 0 results_df.rows [] (svc.view w) w
        refl idle (omega arith))
