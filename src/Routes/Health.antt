-- ===== src/Routes/Health.antt =====
-- The probes: data-processing-service/app/routes/health.py. The query `SELECT 1` is a parameter, and
-- so is the text of `round(time.time() - START_TIME, 1)`.
use global_payments_api.Prelude.{
  ℕ, String, ◌==◌, ◌≡◌, refl, ◌↔◌, Bool, true, false, List, [], ◌∷◌, arith, if◌then◌else◌,
}
use global_payments_api.Python.Raised.{Result, ok, err, Exec}

-- A body of the probes and its status code.
pub record Probe : Type 0 where
  pub status : String
  pub checks : List (String × String)
  pub code : ℕ

-- `all(v == 'UP' for v in checks.values())`
abbrev all_up : List (String × String) → Bool
all_up [] = true
all_up ((c, v) ∷ cs) = if v == "UP" then all_up cs else false

abbrev of_checks : List (String × String) → Probe
of_checks cs = record {
  status = if all_up cs then "UP" else "DOWN";
  checks = cs;
  code = if (if all_up cs then "UP" else "DOWN") == "UP" then 200 else 503;
}

-- The body of the liveness probe.
pub record Alive : Type 0 where
  pub status : String
  pub service : String
  pub uptime_s : String
  pub code : ℕ

abbrev pub liveness : String → Alive
liveness uptime = record {
  status = "UP";
  service = "data-processing-service";
  uptime_s = uptime;
  code = 200;
}

-- `GET /health/`
abbrev pub root : Probe
root = record { status = "UP"; checks = []; code = 200 }

module _ {W : Type 0} (select_1 : Exec W (Unit {0})) where
  abbrev checked : Result (Unit {0}) × W → Probe × W
  checked (ok u, w) = (of_checks (("database", "UP") ∷ []), w)
  checked (err e, w) = (of_checks (("database", "DOWN") ∷ []), w)

  unfoldable pub readiness : W → Probe × W
  readiness w = checked (select_1 w)

abbrev pub Returned : {A W : Type 0} → Result A × W → Type 0
Returned (ok a, w) = Unit
Returned (err e, w) = ⊥

module _ {W : Type 0} (select_1 : Exec W (Unit {0})) where
  checked_iff : (m : Result (Unit {0}) × W) → ((checked select_1 m).0.code ≡ 200) ↔ Returned m
  checked_iff (ok u, w) = (λ h. tt, λ h. refl)
  checked_iff (err e, w) = (λ h. absurd (omega (arith, h)), λ h. absurd h)

  -- The readiness probe answers 200 exactly when the query on the database returns.
  pub readiness-code_iff : (w : W) → ((readiness select_1 w).0.code ≡ 200) ↔ Returned (select_1 w)
  unfolding readiness
  readiness-code_iff w = checked_iff (select_1 w)
