-- ===== src/Tests/Process.antt =====
-- The logging of a process and the environment of the migrations at concrete data.
use global_payments_api.Prelude.{
  ◌↔◌, ◌<◌, ◌≤◌, pos, ℤ, ◌≡◌, refl, String, ◌==◌, eq_iff, Bool, true, false, List, [], ◌∷◌, Option,
  none, some, arith, if◌then◌else◌, inr,
}
use global_payments_api.Python.Raised.{Result, ok, Exec}
use global_payments_api.Python.Decimal.Parse.{codes}
use global_payments_api.Python.Options.{Options, raw_option, set_option}
use global_payments_api.Settings.Values.{Values, configured, base_config, values}
use global_payments_api.Settings.{get_config}
use global_payments_api.Logging.{
  Logging, Stream, stdout, info_level, warning_level, configure_all, configure_logging, outputs,
}
use global_payments_api.Logging.Outputs.{is_quiet, IsNotEchoed, outputs-configure_all}
use global_payments_api.Routes.Table.{get, get_run, url_map, handled}
use global_payments_api.Routes.Table.First.{dispatch_to, dispatch_to-IsRouter}
use global_payments_api.Routes.Table.Paths.{Reaches, url_map_iff}
use global_payments_api.Environment.{
  Call, url_name, alembic_ini, file_config, configure_offline, make_engine, then_do, in_transaction,
  on_connection, logged, main_options, environment,
}
use global_payments_api.Environment.Address.{IsRefused, environment-address, environment-IsRefused}
use global_payments_api.Environment.Output.{GoesToBoth, environment-GoesToBoth}

-- Python's logging before anything is configured.
abbrev silent : Logging
silent = record {
  processors = [];
  handlers = [];
  root_level = 30;
  levels = λ q. none;
  disabled = λ q. false;
}

abbrev service_name : List String
service_name = "services" ∷ "app" ∷ []

-- Two applications of a process, for a logger of the engine.
abbrev sql_name : List String
sql_name = "Engine" ∷ "engine" ∷ "sqlalchemy" ∷ []

outputs-configure_all_example :
    (is_quiet sql_name ≡ false
      → info_level ≤ 20
      → outputs (configure_all (false ∷ false ∷ []) silent) stdout sql_name 20 ≡ 2)
    × (is_quiet sql_name ≡ true
        → IsNotEchoed (false ∷ false ∷ []) sql_name
        → 20 < warning_level
        → (stream : Stream)
        → outputs (configure_all (false ∷ false ∷ []) silent) stream sql_name 20 ≡ 0)
outputs-configure_all_example =
    outputs-configure_all false (false ∷ []) silent sql_name 20 (refl, (refl, (refl, tt))) refl

-- Both halves hold of something: the service's own logger is loud, and the engine's is silent.
outputs-service_name : outputs (configure_all (false ∷ true ∷ []) silent) stdout service_name 20 ≡ 2
outputs-service_name =
    (outputs-configure_all false (true ∷ []) silent service_name 20 (refl, (refl, tt)) refl).0 refl
      (omega arith)

-- Every call returns, and is noted.
abbrev noted : Call → Exec (List Call) (Unit {0})
noted c w = (ok tt, c ∷ w)

abbrev address : String
address = "postgresql://user:secret@db:5432/payments"

abbrev variables : String → Option String
variables name = if name == "DATABASE_URL" then some address else none

abbrev to_int : String → Result ℤ
to_int s = ok (pos 2)

abbrev set_up : Values → Result (Unit {0})
set_up v = ok tt

abbrev nobody : List String → Bool
nobody q = false

production_values : (v : Values) × (configured variables to_int "key" (some "production") ≡ ok v)
unfolding configured values base_config get_config
production_values = (_, refl)

environment-address_example :
    (environment noted variables to_int "key" set_up nobody true alembic_ini silent []
      ≡ logged noted variables to_int "key" set_up nobody
          (configure_logging (production_values.0.debug) (file_config nobody silent))
          (then_do noted (noted (configure_offline (codes address)) []) (in_transaction noted)))
    × ((section : Options) × (raw_option url_name section ≡ some (codes address))
        × (environment noted variables to_int "key" set_up nobody false alembic_ini silent []
            ≡ logged noted variables to_int "key" set_up nobody
                (configure_logging (production_values.0.debug) (file_config nobody silent))
                (then_do noted (noted (make_engine section) []) (on_connection noted))))
environment-address_example =
    environment-address noted variables to_int "key" set_up nobody address (production_values.0)
      silent [] refl (λ e. ground (arith, e, eq_iff address "")) refl (production_values.1) refl

-- A password with an escaped "@".
abbrev escaped : String → Option String
escaped name = if name == "DATABASE_URL" then some "postgresql://user:p%40ss@db/payments" else none

environment-IsRefused_example :
    IsRefused [] (environment noted escaped to_int "key" set_up nobody true alembic_ini silent [])
environment-IsRefused_example =
    environment-IsRefused noted escaped to_int "key" set_up nobody true silent [] (
      inr (
        "postgresql://user:p%40ss@db/payments",
        codes "postgresql://user:p",
        codes "0ss@db/payments",
        52,
        refl,
        refl,
        refl,
        refl,
        refl,
      ))

chosen :
    (o : Options) × (main_options noted variables to_int "key" set_up nobody alembic_ini ≡ ok o)
unfolding main_options set_option
chosen = (_, refl)

environment-GoesToBoth_example :
    GoesToBoth 20
      (environment noted variables to_int "key" set_up nobody true alembic_ini silent []).1
environment-GoesToBoth_example =
    environment-GoesToBoth noted variables to_int "key" set_up nobody true alembic_ini (chosen.0)
      (production_values.0) silent [] 20 (chosen.1) (production_values.1) (omega arith)

url_map_iff_example :
    (dispatch_to url_map get ("api" ∷ "v1" ∷ "reconciliation" ∷ "runs" ∷ "RECON-20240315" ∷ [])
      ≡ handled (get_run "RECON-20240315"))
    ↔ Reaches get
        ("api" ∷ "v1" ∷ "reconciliation" ∷ "runs" ∷ "RECON-20240315" ∷ [])
        (get_run "RECON-20240315")
url_map_iff_example =
    url_map_iff dispatch_to dispatch_to-IsRouter get
      ("api" ∷ "v1" ∷ "reconciliation" ∷ "runs" ∷ "RECON-20240315" ∷ []) (get_run "RECON-20240315")
