-- ===== src/Persist/Bounds.antt =====
-- No transaction of `_persist_results` adds more than 500 records.
use global_payments_api.Prelude.{
  ℕ, suc, ◌<◌, ◌≤◌, String, inl, inr, List, [], ◌∷◌, ◌++◌, arith, length, length-append, leb,
  Bool-cases,
}
use global_payments_api.Python.Raised.{Result, ok, err, Exec}
use global_payments_api.Frame.{Row, Frame}
use global_payments_api.Models.{ReconciliationRecord}
use global_payments_api.Services.{Services}
use global_payments_api.Persist.{
  batch_size, record_of, then_commit, save_batch, after_batch, next_row, persist_rows,
  persist_results,
}

module _ {F : Type 0} (svc : Services F) (P : svc.World → Type 0) (size : ℕ) (run_id : String)
    (ids : ℕ → ℕ)
    (keep_save : (rs : List (ReconciliationRecord F)) (w : svc.World)
      → length rs ≤ size
      → P w
      → P (svc.bulk_save rs w).1)
    (keep_commit : (w : svc.World) → P w → P (svc.commit w).1) where
  open svc use {World}

  keep_then_commit : (m : Result (Unit {0}) × World) → P m.1 → P (then_commit svc m).1
  keep_then_commit (ok u, w) h = keep_commit w h
  keep_then_commit (err e, w) h = h

  keep_batch :
      (rs : List (ReconciliationRecord F)) (w : World)
      → length rs ≤ size
      → P w
      → P (save_batch svc rs w).1
  unfolding save_batch
  keep_batch rs w room h = keep_then_commit (svc.bulk_save rs w) (keep_save rs w room h)

  keep_after :
      (m : Result (Unit {0}) × World) (rest : Exec World (Unit {0}))
      → ((w1 : World) → P w1 → P (rest w1).1)
      → P m.1
      → P (after_batch svc m rest).1
  keep_after (ok u, w) rest go h = go w h
  keep_after (err e, w) rest go h = h

  keep_next :
      (buffer : List (ReconciliationRecord F))
      (rest : List (ReconciliationRecord F) → Exec World (Unit {0}))
      → ((b : List (ReconciliationRecord F)) (w1 : World)
          → length b < size
          → P w1
          → P (rest b w1).1)
      → (built : Result (ReconciliationRecord F)) (w : World) → length buffer < size
      → P w
      → P (next_row svc size rest buffer built w).1
  keep_next buffer rest go (err e) w room h = h
  keep_next buffer rest go (ok r) w room h =
      let batch = buffer ++ r ∷ [] in
      let longer = length-append buffer (r ∷ []) in
      elim (Bool-cases (leb size (length batch))) [
        | inl full ↦ rw full (
            keep_after (save_batch svc batch w) (rest []) (λ w1. go [] w1 (omega (arith, room)))
              (keep_batch batch w (omega (arith, longer)) h))
        | inr waiting ↦ rw waiting (go batch w (ground arith) h)
      ]

  keep_rows :
      (n : ℕ) (rows : List (Row F)) (buffer : List (ReconciliationRecord F)) (w : World)
      → length buffer < size
      → P w
      → P (persist_rows svc size run_id ids n rows buffer w).1
  unfolding persist_rows
  keep_rows n [] [] w room h = h
  keep_rows n [] (r ∷ rs) w room h = keep_batch (r ∷ rs) w (omega (arith, room)) h
  keep_rows n (row ∷ rows) buffer w room h =
      keep_next buffer (persist_rows svc size run_id ids (suc n) rows)
        (λ b w1. keep_rows (suc n) rows b w1) (record_of run_id (ids n) row) w room h

-- Whatever holds of the world, and is kept by a commit and by a bulk insert of at most 500 records,
-- holds after `persist_results`: it makes no larger insert, and no other call.
pub persist_results_keeps :
    {F : Type 0} (svc : Services F) (P : svc.World → Type 0)
    → ((rs : List (ReconciliationRecord F)) (w : svc.World)
        → length rs ≤ 500
        → P w
        → P (svc.bulk_save rs w).1)
    → ((w : svc.World) → P w → P (svc.commit w).1)
    → (ids : ℕ → ℕ) (results_df : Frame F) (run_id : String) (w : svc.World) → P w
    → P (persist_results svc ids results_df run_id w).1
unfolding persist_results
persist_results_keeps svc P keep_save keep_commit ids results_df run_id w h =
    keep_rows svc P batch_size run_id ids keep_save keep_commit 0 results_df.rows [] w (omega arith)
      h
