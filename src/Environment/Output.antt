-- ===== src/Environment/Output.antt =====
-- Where the migrations' log goes.
use global_payments_api.Prelude.{
  ◌∙◌, ap, sym, ℕ, ℤ, ◌≤◌, String, Bool, true, false, List, ◌∷◌, [], Option, some, ◌≡◌, refl, sym,
  arith,
}
use mathlib.Core.Path.{subst}
use global_payments_api.Python.Raised.{Result, ok, err, Exec}
use global_payments_api.Python.Options.{Options}
use global_payments_api.Settings.Values.{Values, configured}
use global_payments_api.Logging.{
  Logging, stdout, stderr, info_level, configure_logging, effective_level, outputs,
}
use global_payments_api.Application.{made, create_app}
use global_payments_api.Environment.{Call, file_config, main_options, with_app, environment}

-- The logger in which Alembic says what it runs.
abbrev pub migration_name : List String
migration_name = "migration" ∷ "runtime" ∷ "alembic" ∷ []

-- A record goes once to each of the streams.
abbrev pub GoesToBoth : ℕ → Logging → Type 0
GoesToBoth level s =
    (outputs s stdout migration_name level ≡ 1) × (outputs s stderr migration_name level ≡ 1)

configured-GoesToBoth :
    (debug : Bool) (existing : List String → Bool) (log : Logging) (level : ℕ)
    → info_level ≤ level
    → GoesToBoth level (configure_logging debug (file_config existing log))
unfolding configure_logging file_config outputs effective_level
configured-GoesToBoth true existing log level h = (ground (arith, h), ground (arith, h))
configured-GoesToBoth false existing log level h = (ground (arith, h), ground (arith, h))

module _ {W : Type 0} (perform : Call → Exec W (Unit {0})) (env : String → Option String)
    (to_int : String → Result ℤ) (urandom : String) (set_up : Values → Result (Unit {0}))
    (existing : List String → Bool) where
  log-with_app :
      (offline : Bool) (o : Options) (m : Result Values × Logging) (w : W)
      → (with_app perform env to_int urandom set_up existing offline o m w).1 ≡ m.1
  log-with_app offline o (err e, log) w = refl
  log-with_app true o (ok v, log) w = refl
  log-with_app false o (ok v, log) w = refl

  -- Once the application is made, offline or online, and whatever follows: a record of level INFO or
  -- above in which Alembic says what it runs goes to the standard output, where the offline mode
  -- writes its SQL, and also to the standard error.
  pub environment-GoesToBoth :
      (offline : Bool) (ini o : Options) (v : Values) (log : Logging) (w : W) (level : ℕ)
      → main_options perform env to_int urandom set_up existing ini ≡ ok o
      → configured env to_int urandom (some "production") ≡ ok v
      → info_level ≤ level
      → GoesToBoth level
          (environment perform env to_int urandom set_up existing offline ini log w).1
  unfolding environment create_app
  environment-GoesToBoth offline ini o v log w level h k l = rw h (
      subst (GoesToBoth level)
        (sym (
          log-with_app offline o
            (create_app env to_int urandom set_up (some "production") (file_config existing log)) w
          ∙ ap (λ m. (made env to_int urandom set_up m (file_config existing log)).1) k))
        (configured-GoesToBoth v.debug existing log level l))
