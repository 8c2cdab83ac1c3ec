-- ===== src/Application.antt =====
-- `create_app` of data-processing-service/app/__init__.py: the choice of the settings, the logging,
-- and `set_up`, which is the rest: what Flask-SQLAlchemy, Flask-Migrate, the exporter of metrics and
-- Flask do to the application, with the rules of `Routes/Table` and the handlers of `Routes/Errors`.
use global_payments_api.Prelude.{ℤ, String, Option}
use global_payments_api.Python.Raised.{Result, ok, err, ◌>>=◌}
use global_payments_api.Settings.Values.{Values, configured}
use global_payments_api.Logging.{Logging, configure_logging}

module _ (env : String → Option String) (to_int : String → Result ℤ) (urandom : String)
    (set_up : Values → Result (Unit {0})) where
  abbrev pub made : Result Values → Logging → Result Values × Logging
  made (err e) log = (err e, log)
  made (ok config) log = ((do u ← set_up config; ok config), configure_logging config.debug log)

  -- The application, by its settings, and the logging that is left.
  unfoldable pub create_app : Option String → Logging → Result Values × Logging
  unfolding configured configure_logging
  create_app config_name log = made (configured env to_int urandom config_name) log
