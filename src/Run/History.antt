-- ===== src/Run/History.antt =====
-- Runs one after another, in any order of dates and with any ends. Each has a session of its own on the
-- tables that the runs before it have left; the payments, the file and the clock may be others.
use mathlib.Core.Path.{subst}
use global_payments_api.Prelude.{
  ℕ, suc, ◌+◌, String, ◌==◌, eq_iff, eq_refl, ◌≡◌, refl, sym, ap, ◌∙◌, false, Bool-cases, inl, inr,
  List, [], ◌∷◌, ◌++◌, none, some, Option-cases, All, arith, length, count_if,
}
use global_payments_api.Python.Raised.{Raised, Result, ok, err}
use global_payments_api.Python.Float.{Float}
use global_payments_api.Python.Date.{Date}
use global_payments_api.Frame.{Row, Frame}
use global_payments_api.Pandas.{Pandas, IsDocumented}
use global_payments_api.Models.{ReconciliationRun, ReconciliationRecord}
use global_payments_api.Services.{Services, View, IsSession, SameStored, find_run}
use global_payments_api.Persist.Outcome.{AllBuilt}
use global_payments_api.Run.{Summary, run_id_of, run_daily_reconciliation}
use global_payments_api.Run.Theorems.{RunOutcome, IsUnfinished, run_daily_reconciliation-RunOutcome}
use global_payments_api.Run.Stored.{StoresTallied, run_daily_reconciliation-StoresTallied}
use global_payments_api.Run.Others.{KeepsOthers, run_daily_reconciliation-KeepsOthers}
use global_payments_api.Run.Refused.{IsLost, second_run_raises}
use global_payments_api.Run.Additions.{IsOwn, Adds, AllBuilt-IsOwn, run_daily_reconciliation-Adds}

module _ {F : Type 0} where
  -- How many records have the key of a run.
  abbrev pub count_of : String → List (ReconciliationRecord F) → ℕ
  count_of i = count_if (λ r. r.reconciliation_run_id == i)

  pub count_of-append :
      (i : String) (rs new : List (ReconciliationRecord F))
      → count_of i (rs ++ new) ≡ count_of i rs + count_of i new
  count_of-append i [] new = omega arith
  count_of-append i (r ∷ rs) new = ground (arith, count_of-append i rs new)

  count_of-own :
      (i : String) (new : List (ReconciliationRecord F))
      → All (IsOwn i) new
      → count_of i new ≡ length new
  count_of-own i [] h = refl
  count_of-own i (r ∷ new) (e, h) = rw (e, eq_refl, count_of-own i new h)

  pub count_of-others :
      (id i : String) (new : List (ReconciliationRecord F))
      → (id == i) ≡ false
      → All (IsOwn id) new
      → count_of i new ≡ 0
  count_of-others id i [] ne h = refl
  count_of-others id i (r ∷ new) ne (e, h) = rw (e, ne, count_of-others id i new ne h)

  AllBuilt-length :
      (id : String) (ids : ℕ → ℕ) (n : ℕ) (rows : List (Row F))
      (all : List (ReconciliationRecord F))
      → AllBuilt id ids n rows all
      → length all ≡ length rows
  AllBuilt-length id ids n [] [] built = refl
  AllBuilt-length id ids n [] (r ∷ all) built = absurd built
  AllBuilt-length id ids n (row ∷ rows) [] built = absurd built
  AllBuilt-length id ids n (row ∷ rows) (r ∷ all) (e, built) =
      omega (arith, AllBuilt-length id ids (suc n) rows all built)

  -- The counters of a run add up, and so many records have its key as it says.
  pub record IsWhole (v : View F) (i : String) (r : ReconciliationRun F) : Type 0 where
    pub stored : count_of i v.records ≡ r.total_records
    pub adds_up : r.matched_count + r.unmatched_count + r.exception_count ≡ r.total_records

  -- What every run leaves in the tables.
  pub record IsSound (v : View F) : Type 0 where
    pub unknown : (i : String) → find_run i v.runs ≡ none → count_of i v.records ≡ 0
    pub completed :
        (i : String) (r : ReconciliationRun F)
        → find_run i v.runs ≡ some r
        → r.status ≡ "COMPLETED"
        → IsWhole v i r

  IsSound-same : (v u : View F) → SameStored v u → IsSound v → IsSound u
  IsSound-same v u same s = record {
    unknown =
        λ i h. ap (count_of i) same.records ∙ s.unknown i (ap (find_run i) (sym same.runs) ∙ h);
    completed = λ i r h c.
        let whole = s.completed i r (ap (find_run i) (sym same.runs) ∙ h) c in
        record { stored = ap (count_of i) same.records ∙ whole.stored; adds_up = whole.adds_up };
  }

  not_completed :
      (e : Raised) (r : ReconciliationRun F) → IsUnfinished e r → r.status ≡ "COMPLETED" → ⊥
  not_completed e r (inl h) c = cc
  not_completed e r (inr (h, t)) c = cc

module _ (fl : Float) (pd : Pandas fl.F) (stamp_text : ℕ → String) (doc : IsDocumented fl.nan pd)
    (svc : Services fl.F) (sess : IsSession svc) (ids : ℕ → ℕ) (to_csv : Frame fl.F → String)
    (bucket : String) where
  open fl use {F}
  open svc use {World, view}

  -- The tables that some runs lead to, from empty ones.
  pub data Reached : View F → Type 0 where
    no_run : {v : View F} → v.runs ≡ [] → v.records ≡ [] → Reached v
    run_of :
        {v : View F} (d : Date) (w : World)
        → Reached v
        → SameStored v (view w)
        → Reached (view (run_daily_reconciliation fl pd stamp_text svc ids to_csv bucket d w).1)

  -- The row of the key of a run, after it.
  own_key :
      (made : List (Row fl.F) → Type 0) (id : String) (v : View F) (m : Result (Summary F) × World)
      → IsSound v
      → RunOutcome fl svc ids made id v m
      → Adds id v (view m.1)
      → StoresTallied fl svc id m
      → ((q : ReconciliationRun F) → find_run id v.runs ≡ some q → IsLost svc v m)
      → ((find_run id (view m.1).runs ≡ none) → count_of id (view m.1).records ≡ 0)
        × ((r : ReconciliationRun F)
            → find_run id (view m.1).runs ≡ some r
            → r.status ≡ "COMPLETED"
            → IsWhole (view m.1) id r)
  own_key made id v (ok s, w) sound (r, results, all, found, done, built, of, len, recs) adds
        (r2, found2, st, sum) again =
      (
        λ h. absurd (none_some (sym h ∙ found)),
        λ q h c.
            let none_before : find_run id v.runs ≡ none = elim (Option-cases (find_run id v.runs)) [
              | inl e ↦ e
              | inr (x, e) ↦ absurd (again x e)
            ] in
            let same : r ≡ q = some_some (sym found ∙ h) in
            let same2 : r2 ≡ q = some_some (sym found2 ∙ h) in
            record {
              stored =
                  ap (count_of id) recs
                  ∙ count_of-append id v.records all
                  ∙ omega (
                    arith,
                    sound.unknown id none_before,
                    count_of-own id all (AllBuilt-IsOwn id ids 0 results all built),
                    AllBuilt-length id ids 0 results all built,
                    len,
                    done.total,
                    ap (λ (x : ReconciliationRun F). x.total_records) same,
                  );
              adds_up =
                  subst
                    (λ (x : ReconciliationRun F).
                      x.matched_count + x.unmatched_count + x.exception_count ≡ x.total_records)
                    same2 sum;
            },
      )
    where
      none_some : {x : ReconciliationRun F} → ¬ (none ≡ some x)
      none_some e = cc

      some_some : {x y : ReconciliationRun F} → some x ≡ some y → x ≡ y
      some_some e = cc
  own_key made id v (err e, w) sound (inl same) adds t again =
      let s = IsSound-same v (view w) same sound in (s.unknown id, s.completed id)
  own_key made id v (err e, w) sound (inr (r, found, u)) adds t again = (
    λ h. absurd (none_some (sym h ∙ found)),
    λ q h c. absurd (not_completed e q (subst (IsUnfinished e) (some_some (sym found ∙ h)) u) c),
  )
    where
      none_some : {x : ReconciliationRun F} → ¬ (none ≡ some x)
      none_some e = cc

      some_some : {x y : ReconciliationRun F} → some x ≡ some y → x ≡ y
      some_some e = cc

  after_run-IsSound :
      (made : List (Row fl.F) → Type 0) (id : String) (v : View F) (m : Result (Summary F) × World)
      → IsSound v
      → RunOutcome fl svc ids made id v m
      → Adds id v (view m.1)
      → StoresTallied fl svc id m
      → KeepsOthers svc id v m
      → ((q : ReconciliationRun F) → find_run id v.runs ≡ some q → IsLost svc v m)
      → IsSound (view m.1)
  after_run-IsSound made id v m sound outcome adds tallied others again =
      let own = own_key made id v m sound outcome adds tallied again in
      record {
        unknown = λ i h. elim (Bool-cases (id == i)) [
          | inl e ↦
              subst (λ k. find_run k (view m.1).runs ≡ none → count_of k (view m.1).records ≡ 0)
                ((eq_iff id i).0 e) (own.0) h
          | inr ne ↦ kept i ne ∙ sound.unknown i (sym (others i ne) ∙ h)
        ];
        completed = λ i r h c. elim (Bool-cases (id == i)) [
          | inl e ↦
              subst (λ k. find_run k (view m.1).runs ≡ some r → IsWhole (view m.1) k r)
                ((eq_iff id i).0 e) (λ q. own.1 r q c) h
          | inr ne ↦
              let whole = sound.completed i r (sym (others i ne) ∙ h) c in
              record { stored = kept i ne ∙ whole.stored; adds_up = whole.adds_up }
        ];
      }
    where
      kept : (i : String) → (id == i) ≡ false → count_of i (view m.1).records ≡ count_of i v.records
      kept i ne =
          ap (count_of i) adds.records
          ∙ count_of-append i v.records adds.new
          ∙ omega (arith, count_of-others id i adds.new ne adds.own)

  -- With pandas as documented, in the tables that any runs have led to from empty ones, whatever their
  -- dates, their order and their ends: each run that is COMPLETED has exactly as many records with its
  -- key as its number of records says, and its three counters add up to that number; and a key without
  -- a run has no records.
  pub Reached-IsSound : (v : View F) → Reached v → IsSound v
  unfolding find_run
  Reached-IsSound v (no_run no_runs no_records) = record {
    unknown = λ i h. ap (count_of i) no_records;
    completed = λ i r h c. absurd (none_some (sym (ap (find_run i) no_runs) ∙ h));
  }
    where
      none_some : {x : ReconciliationRun F} → ¬ (none ≡ some x)
      none_some e = cc
  Reached-IsSound _ (run_of {v} d w before same) =
      after_run-IsSound _ (run_id_of d) (view w)
        (run_daily_reconciliation fl pd stamp_text svc ids to_csv bucket d w)
        (IsSound-same v (view w) same (Reached-IsSound v before))
        (run_daily_reconciliation-RunOutcome fl pd stamp_text svc sess ids to_csv bucket d w
          same.nothing_staged)
        (run_daily_reconciliation-Adds fl pd stamp_text svc sess ids to_csv bucket d w
          same.nothing_staged)
        (run_daily_reconciliation-StoresTallied fl pd stamp_text doc svc sess ids to_csv bucket d w
          same.nothing_staged)
        (run_daily_reconciliation-KeepsOthers fl pd stamp_text svc sess ids to_csv bucket d w)
        (second_run_raises fl pd stamp_text svc sess ids to_csv bucket d w)
