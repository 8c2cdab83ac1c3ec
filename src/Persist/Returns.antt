-- ===== src/Persist/Returns.antt =====
-- The loop over the rows on a session that works.
use global_payments_api.Prelude.{
  ℕ, suc, String, ◌≡◌, refl, sym, ap, ◌∙◌, false, Bool-cases, inl, inr, List, [], ◌∷◌, ◌++◌, All,
  All-append, length, leb,
}
use global_payments_api.Python.Raised.{Result, ok, err}
use global_payments_api.Frame.{Row, Frame}
use global_payments_api.Models.{ReconciliationRun, ReconciliationRecord}
use global_payments_api.Services.{
  CanCommit, Services, View, IsSession, AfterBulkSave, AfterCommit, committed,
}
use global_payments_api.Persist.{
  batch_size, record_of, save_batch, flush_rest, persist_rows, persist_results,
}

-- A call that returns, to a world that is still good.
abbrev pub Succeeds : {A W : Type 0} → (W → Type 0) → Result A × W → Type 0
Succeeds {A} {W} Good m = (a : A) × (w : W) × (m ≡ (ok a, w)) × Good w

-- A database that works, as long as the world is `Good`: it stores every row of a run, and the
-- records that it `Accepts`, with the types and the widths of its columns.
pub record IsUp {F : Type 0} (svc : Services F) (Accepts : ReconciliationRecord F → Type 0)
    (Good : svc.World → Type 0) : Type 0 where
  pub add_up : (r : ReconciliationRun F) (w : svc.World) → Good w → Good (svc.add_run r w)
  pub set_up : (r : ReconciliationRun F) (w : svc.World) → Good w → Good (svc.set_run r w)
  pub save_up :
      (rs : List (ReconciliationRecord F)) (w : svc.World)
      → All Accepts rs
      → Good w
      → Succeeds Good (svc.bulk_save rs w)
  pub commit_up : (w : svc.World) → Good w → CanCommit (svc.view w) → Succeeds Good (svc.commit w)

module _ {F : Type 0} (svc : Services F) (sess : IsSession svc)
    (Accepts : ReconciliationRecord F → Type 0) (Good : svc.World → Type 0)
    (up : IsUp svc Accepts Good) where
  open svc use {World, view}

  -- Good, with nothing to insert.
  abbrev pub IsSettled : World → Type 0
  IsSettled w = Good w × ((view w).fresh ≡ false)

  pub commit-Succeeds :
      (w : World) → Good w → CanCommit (view w) → Succeeds IsSettled (svc.commit w)
  commit-Succeeds w g can =
      let (u, w1, e, g1) = up.commit_up w g can in
      (u, w1, e, (g1, ap (λ (v : View F). v.fresh) (after (svc.commit w) e (sess.commit_lem w))))
    where
      after :
          {u : Unit {0}} {w1 : World} (m : Result (Unit {0}) × World)
          → m ≡ (ok u, w1)
          → AfterCommit svc (view w) m
          → view w1 ≡ committed (view w)
      after (ok x, w2) e h = cc
      after (err x, w2) e h = cc

  save_batch-Succeeds :
      (rs : List (ReconciliationRecord F)) (w : World)
      → All Accepts rs
      → IsSettled w
      → Succeeds IsSettled (save_batch svc rs w)
  unfolding save_batch
  save_batch-Succeeds rs w accepted (g, settled) =
      let (u, w1, e, g1) = up.save_up rs w accepted g in
      let fresh = after (svc.bulk_save rs w) e (sess.bulk_save_lem rs w) in
      rw e (commit-Succeeds w1 g1 (inl (fresh ∙ settled)))
    where
      after :
          {u : Unit {0}} {w1 : World} (m : Result (Unit {0}) × World)
          → m ≡ (ok u, w1)
          → AfterBulkSave svc rs (view w) m
          → (view w1).fresh ≡ (view w).fresh
      after (ok x, w2) e h =
          let q : w2 ≡ _ = ap (λ (m : Result (Unit {0}) × World). m.1) e in
          ap (λ z. (view z).fresh) (sym q) ∙ ap (λ (v : View F). v.fresh) h
      after (err x, w2) e h = cc

  flush_rest-Succeeds :
      (buffer : List (ReconciliationRecord F)) (w : World)
      → All Accepts buffer
      → IsSettled w
      → Succeeds IsSettled (flush_rest svc buffer w)
  unfolding save_batch
  flush_rest-Succeeds [] w a g = (tt, w, refl, g)
  flush_rest-Succeeds (r ∷ rs) w a g = save_batch-Succeeds (r ∷ rs) w a g

  -- The row can be made into a record that the database accepts.
  abbrev pub IsReadable : String → Row F → Type 0
  IsReadable run_id row =
      (id : ℕ) → (r : ReconciliationRecord F) × (record_of run_id id row ≡ ok r) × Accepts r

  persist_rows-Succeeds :
      (run_id : String) (ids : ℕ → ℕ) (n : ℕ) (rows : List (Row F))
      (buffer : List (ReconciliationRecord F)) (w : World)
      → All (IsReadable run_id) rows
      → All Accepts buffer
      → IsSettled w
      → Succeeds IsSettled (persist_rows svc batch_size run_id ids n rows buffer w)
  unfolding persist_rows
  persist_rows-Succeeds run_id ids n [] buffer w h a g = flush_rest-Succeeds buffer w a g
  persist_rows-Succeeds run_id ids n (row ∷ rows) buffer w (readable, h) a g =
      let (r, e, taken) = readable (ids n) in
      let batch = buffer ++ r ∷ [] in
      let all = All-append Accepts buffer (r ∷ []) a (taken, tt) in
      rw e (elim (Bool-cases (leb batch_size (length batch))) [
        | inl full ↦
            let (u, w1, saved, g1) = save_batch-Succeeds batch w all g in
            rw (full, saved) (persist_rows-Succeeds run_id ids (suc n) rows [] w1 h tt g1)
        | inr waiting ↦ rw waiting (persist_rows-Succeeds run_id ids (suc n) rows batch w h all g)
      ])

  -- On a database that works, the loop over rows that can all be made into records that it accepts
  -- returns.
  pub persist_results-Succeeds :
      (ids : ℕ → ℕ) (results_df : Frame F) (run_id : String) (w : World)
      → All (IsReadable run_id) results_df.rows
      → IsSettled w
      → Succeeds IsSettled (persist_results svc ids results_df run_id w)
  unfolding persist_results
  persist_results-Succeeds ids results_df run_id w h g =
      persist_rows-Succeeds run_id ids 0 results_df.rows [] w h tt g
