-- ===== src/Environment.antt =====
-- The environment of the migrations, data-processing-service/migrations/env.py: what it takes for
-- the address of the database, what it asks Alembic and SQLAlchemy to do, and the logging that it
-- leaves. `set_up` is the part of `create_app` behind the logging, which extends the application by
-- libraries. The main section of data-processing-service/alembic.ini is given by its options; `here`,
-- which Alembic adds to them, is left out, and the file is taken to be there.
pub mod Address
pub mod Output
use global_payments_api.Prelude.{
  ℕ, ℤ, String, Bool, true, false, ◌&&◌, ◌||◌, List, [], ◌∷◌, Option, none, some, if◌then◌else◌,
}
use global_payments_api.Python.Raised.{Result, ok, err, ◌>>=◌, Raised, Exec}
use global_payments_api.Python.Decimal.Parse.{codes}
use global_payments_api.Python.Options.{Text, Options, set_option, get_option, items}
use global_payments_api.Settings.Values.{Values, is_set, or_default}
use global_payments_api.Application.{create_app}
use global_payments_api.Logging.{
  Logging, Handler, stderr, configure_logging, info_level, warning_level, same_name, engine_name,
}

abbrev pub url_name : Text
url_name = codes "sqlalchemy.url"

-- The main section of the file.
abbrev pub alembic_ini : Options
alembic_ini =
    (codes "script_location", codes "migrations")
    ∷ (codes "prepend_sys_path", codes ".")
    ∷ (codes "version_path_separator", codes "os")
    ∷ (url_name, codes "%(DATABASE_URL)s")
    ∷ []

abbrev pub alembic_name : List String
alembic_name = "alembic" ∷ []

-- A name that the file has a section for, or one below it.
abbrev is_configured : List String → Bool
is_configured [] = false
is_configured (x ∷ parent) =
    let rest = is_configured parent in
    same_name (x ∷ parent) engine_name || (same_name (x ∷ parent) alembic_name || rest)

abbrev own_level : List String → Option ℕ
own_level name =
    if same_name name engine_name
    then some warning_level
    else if same_name name alembic_name
    then some info_level
    else none

-- `fileConfig(config.config_file_name)` with the sections of the file on logging; `existing` are the
-- loggers that there are before. Those that the file does not name are disabled.
unfoldable pub file_config : (List String → Bool) → Logging → Logging
file_config existing s = record s {
  handlers = record { stream = stderr; level = 0 } ∷ [];
  root_level = warning_level;
  levels = λ q. if is_configured q then own_level q else s.levels q;
  disabled = λ q. if is_configured q then false else existing q || s.disabled q;
}

-- What is asked of Alembic and of SQLAlchemy.
pub data Call : Type 0 where
  -- `context.configure(url=url, literal_binds=True, …)`
  configure_offline : Text → Call
  -- `engine_from_config(section, prefix="sqlalchemy.", poolclass=NullPool)`
  make_engine : Options → Call
  connect : Call
  -- `context.configure(connection=connection, …)`
  configure_online : Call
  begin_transaction : Call
  run_migrations : Call
  -- the ends of both `with` blocks: whether the block has returned
  end_transaction close_connection : Bool → Call

module _ {W : Type 0} (perform : Call → Exec W (Unit {0})) where
  -- A call, and what follows it where it returns.
  abbrev pub then_do : Result (Unit {0}) × W → Exec W (Unit {0}) → Result (Unit {0}) × W
  then_do (err e, w) more = (err e, w)
  then_do (ok u, w) more = more w

  abbrev left : Result (Unit {0}) → Result (Unit {0}) × W → Result (Unit {0}) × W
  left r (ok u, w) = (r, w)
  left r (err e, w) = (err e, w)

  abbrev leaving : (Bool → Call) → Result (Unit {0}) × W → Result (Unit {0}) × W
  leaving leave (ok u, w) = left (ok u) (perform (leave true) w)
  leaving leave (err e, w) = left (err e) (perform (leave false) w)

  -- `with enter() …: body`
  abbrev pub within : Call → (Bool → Call) → Exec W (Unit {0}) → Exec W (Unit {0})
  within enter leave body w = then_do (perform enter w) (λ w'. leaving leave (body w'))

  -- `with context.begin_transaction(): context.run_migrations()`
  abbrev pub in_transaction : Exec W (Unit {0})
  in_transaction = within begin_transaction end_transaction (perform run_migrations)

  abbrev with_url : Result Text → Exec W (Unit {0})
  with_url (err e) w = (err e, w)
  with_url (ok url) w = then_do (perform (configure_offline url) w) in_transaction

  unfoldable pub run_migrations_offline : Options → Exec W (Unit {0})
  unfolding get_option
  run_migrations_offline o = with_url (get_option url_name o)

  -- From the engine on.
  abbrev pub on_connection : Exec W (Unit {0})
  on_connection =
      within connect close_connection (λ w. then_do (perform configure_online w) in_transaction)

  abbrev with_section : Result Options → Exec W (Unit {0})
  with_section (err e) w = (err e, w)
  with_section (ok section) w = then_do (perform (make_engine section) w) on_connection

  unfoldable pub run_migrations_online : Options → Exec W (Unit {0})
  unfolding items
  run_migrations_online o = with_section (items o)

  module _ (env : String → Option String) (to_int : String → Result ℤ) (urandom : String)
      (set_up : Values → Result (Unit {0})) (existing : List String → Bool) where
    -- `if database_url: config.set_main_option('sqlalchemy.url', database_url)`
    unfoldable pub main_options : Options → Result Options
    main_options ini =
        if is_set (env "DATABASE_URL")
        then set_option url_name (codes (or_default (env "DATABASE_URL") "")) ini
        else ok ini

    abbrev run_in_mode : Bool → Options → Exec W (Unit {0})
    run_in_mode offline o w =
        if offline then run_migrations_offline o w else run_migrations_online o w

    abbrev pub logged : Logging → Result (Unit {0}) × W → Result (Unit {0}) × Logging × W
    logged log (r, w) = (r, log, w)

    -- From the application on.
    abbrev pub with_app :
        Bool → Options → Result Values × Logging → W → Result (Unit {0}) × Logging × W
    with_app offline o (err e, log) w = (err e, log, w)
    with_app offline o (ok v, log) w = logged log (run_in_mode offline o w)

    abbrev with_options : Bool → Result Options → Logging → W → Result (Unit {0}) × Logging × W
    with_options offline (err e) log w = (err e, log, w)
    with_options offline (ok o) log w =
        with_app offline o
          (create_app env to_int urandom set_up (some "production") (file_config existing log)) w

    -- The body of the module; `offline` is `context.is_offline_mode()`.
    unfoldable pub environment : Bool → Options → Logging → W → Result (Unit {0}) × Logging × W
    unfolding main_options run_migrations_offline run_migrations_online file_config create_app
    environment offline ini log w = with_options offline (main_options ini) log w
