-- ===== src/Routes/Lists.antt =====
-- `GET /api/v1/reconciliation/runs`: `list_runs` of
-- data-processing-service/app/routes/reconciliation.py. `to_int` is `int` of a text; the query, which
-- orders, limits and skips, is a parameter, and `IsQuery` is what it is relied on for.
use global_payments_api.Prelude.{
  ℕ, ◌≤◌, min, ℤ, pos, negsuc, String, ◌≡◌, sym, ap, ◌∙◌, Option, none, some, List, map, arith,
  length, length-map, length-take, take, drop,
}
use mathlib.Core.Path.{subst}
use global_payments_api.Python.Raised.{Raised, Result, ok, err, ◌>>=◌, >>=-eq-ok}
use global_payments_api.Python.Float.{Float}
use global_payments_api.Python.Date.{Date}
use global_payments_api.Models.{ReconciliationRun, match_rate}

-- An entry of the list.
pub record RunEntry (F : Type 0) : Type 0 where
  pub id : String
  pub run_date : String
  pub status : String
  pub total_records : ℕ
  pub matched : ℕ
  pub unmatched : ℕ
  pub exceptions : ℕ
  pub match_rate_pct : F
  pub started_at : Option String
  pub completed_at : Option String

-- `min(int(x), most)`
abbrev pub capped : ℕ → ℤ → ℤ
capped most (pos n) = pos (min n most)
capped most (negsuc n) = negsuc n

-- `.order_by(….desc()).limit(l).offset(o).all()` with the order that it gives.
-- PostgreSQL refuses a negative limit or offset.
pub record IsQuery {A : Type 0} (ordered : List A → List A)
    (query : ℤ → ℤ → List A → Result (List A)) : Type 0 where
  pub query_lem :
      (l o : ℕ) (rows : List A) → query (pos l) (pos o) rows ≡ ok (take l (drop o (ordered rows)))
  pub negative_limit :
      (n : ℕ) (o : ℤ) (rows : List A) → (e : Raised) × (query (negsuc n) o rows ≡ err e)
  pub negative_offset :
      (l n : ℕ) (rows : List A) → (e : Raised) × (query (pos l) (negsuc n) rows ≡ err e)

module _ (to_int : String → Result ℤ) where
  -- `int(request.args.get(name, default))`
  abbrev pub int_arg : ℕ → Option String → Result ℤ
  int_arg default none = ok (pos default)
  int_arg default (some s) = to_int s

module _ (fl : Float) (to_int : String → Result ℤ) (date_text : Date → String)
    (time_text : ℕ → String)
    (query : ℤ → ℤ → List (ReconciliationRun fl.F) → Result (List (ReconciliationRun fl.F))) where
  open fl use {F}

  abbrev text_of_time : Option ℕ → Option String
  text_of_time none = none
  text_of_time (some t) = some (time_text t)

  abbrev pub run_entry : ReconciliationRun F → RunEntry F
  run_entry r = record {
    id = r.id;
    run_date = date_text r.run_date;
    status = r.status;
    total_records = r.total_records;
    matched = r.matched_count;
    unmatched = r.unmatched_count;
    exceptions = r.exception_count;
    match_rate_pct = match_rate fl r.matched_count r.total_records;
    started_at = text_of_time r.started_at;
    completed_at = text_of_time r.completed_at;
  }

  -- The list, or what the request raises.
  unfoldable pub list_runs :
      Option String → Option String → List (ReconciliationRun F) → Result (List (RunEntry F))
  unfolding match_rate
  list_runs limit_arg offset_arg table = do
    limit ← int_arg to_int 30 limit_arg
    offset ← int_arg to_int 0 offset_arg
    runs ← query (capped 90 limit) offset table
    ok (map run_entry runs)

  -- What is listed: a stretch of at most 90 of the ordered runs.
  abbrev pub IsListed :
      (List (ReconciliationRun F) → List (ReconciliationRun F))
      → ℤ
      → ℤ
      → List (ReconciliationRun F)
      → List (RunEntry F)
      → Type 0
  IsListed ordered (pos l) (pos o) table entries =
      (entries ≡ map run_entry (take (min l 90) (drop o (ordered table)))) × (length entries ≤ 90)
  IsListed ordered _ _ table entries = ⊥

  query-IsListed :
      (ordered : List (ReconciliationRun F) → List (ReconciliationRun F))
      → IsQuery ordered query
      → (l o : ℤ) (table runs : List (ReconciliationRun F)) → query (capped 90 l) o table ≡ ok runs
      → IsListed ordered l o table (map run_entry runs)
  query-IsListed ordered q (pos l) (pos o) table runs h =
      let same = ok_runs (sym h ∙ q.query_lem (min l 90) o table) in
      (
        ap (map run_entry) same,
        omega (
          arith,
          length-map run_entry runs,
          ap length same,
          length-take (min l 90) (drop o (ordered table)),
        ),
      )
    where
      ok_runs : {a b : List (ReconciliationRun F)} → ok a ≡ ok b → a ≡ b
      ok_runs e = cc
  query-IsListed ordered q (negsuc n) o table runs h =
      let (e, r) = q.negative_limit n o table in absurd (fails (sym h ∙ r))
    where
      fails : {a : List (ReconciliationRun F)} {e : Raised} → ¬ (ok a ≡ err e)
      fails e = cc
  query-IsListed ordered q (pos l) (negsuc n) table runs h =
      let (e, r) = q.negative_offset (min l 90) n table in absurd (fails (sym h ∙ r))
    where
      fails : {a : List (ReconciliationRun F)} {e : Raised} → ¬ (ok a ≡ err e)
      fails e = cc

  -- Where `list_runs` succeeds, with a query that orders, skips and limits: both numbers are not
  -- negative, and the list is that of the ordered runs behind the offset, as many as the limit and at
  -- most 90.
  pub list_runs-IsListed :
      (ordered : List (ReconciliationRun F) → List (ReconciliationRun F))
      → IsQuery ordered query
      → (limit_arg offset_arg : Option String) (table : List (ReconciliationRun F))
        (entries : List (RunEntry F))
      → list_runs limit_arg offset_arg table ≡ ok entries
      → (l o : ℤ) × (int_arg to_int 30 limit_arg ≡ ok l)
        × (int_arg to_int 0 offset_arg ≡ ok o)
        × IsListed ordered l o table entries
  unfolding list_runs
  list_runs-IsListed ordered q limit_arg offset_arg table entries h =
      let (l, el, h1) = >>=-eq-ok (int_arg to_int 30 limit_arg) _ h in
      let (o, eo, h2) = >>=-eq-ok (int_arg to_int 0 offset_arg) _ h1 in
      let (runs, e, h3) = >>=-eq-ok (query (capped 90 l) o table) _ h2 in
      (
        l,
        o,
        el,
        eo,
        subst (IsListed ordered l o table) (ok_entries h3)
            (query-IsListed ordered q l o table runs e),
      )
    where
      ok_entries : {a b : List (RunEntry F)} → ok a ≡ ok b → a ≡ b
      ok_entries e = cc
