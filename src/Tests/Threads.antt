-- ===== src/Tests/Threads.antt =====
-- The consumer's thread and the process that starts it, on a log of two messages.
use global_payments_api.Prelude.{
  ℕ, ℤ, pos, String, ◌==◌, ◌≡◌, refl, ◌↔◌, ◌⊎◌, arith, true, false, List, [], ◌∷◌, Option, none,
  some, if◌then◌else◌,
}
use global_payments_api.Python.Raised.{Raised, other, Result, ok, err, Exec}
use global_payments_api.Kafka.{
  ConsumerConfig, State, Handled, start, round, after_poll, process_message, continues,
}
use global_payments_api.Kafka.Memory.{Log, in_memory, next_message}
use global_payments_api.Kafka.Thread.{
  begun, in_round, at_test, Turn, thread, stop, System, run, turn, thread_turn, stop_consumer,
}
use global_payments_api.Kafka.Thread.Stop.{HasEnded, run-HasEnded, early_stop_is_lost}
use global_payments_api.Kafka.Thread.Refines.{run-start}
use global_payments_api.Settings.{get_config, testing}
use global_payments_api.Settings.Values.{Values, base_config, values, configured, init_app, is_set}
use global_payments_api.Wsgi.{env_name, wsgi, IsStarted, wsgi-none_iff, wsgi-init_app}
use global_payments_api.Logging.{Logging, warning_level}
use global_payments_api.Tests.Events.{loads, state}

abbrev subscribe : Exec Log (Unit {0})
subscribe w = (ok tt, w)

abbrev reading : System loads in_memory subscribe
reading = record { running = true; position = in_round; state = state }

run-HasEnded_example : HasEnded (
    (run loads in_memory subscribe
      (thread ∷ thread ∷ thread ∷ [])
      (stop_consumer loads in_memory subscribe reading)).position)
run-HasEnded_example =
    run-HasEnded loads in_memory subscribe reading (thread ∷ thread ∷ thread ∷ []) tt
      (tt, (tt, (tt, tt))) (omega arith)

next_message-goes_on :
    (vs : List String) (l : Log) (hs : List Handled)
    → (s : State loads in_memory) × (after_poll loads in_memory hs (next_message vs l)
        ≡ continues s)
unfolding process_message
next_message-goes_on [] l hs = (_, refl)
next_message-goes_on (v ∷ vs) l hs = (_, refl)

goes_on :
    (s : State loads in_memory)
    → (s' : State loads in_memory) × (round loads in_memory s ≡ continues s')
unfolding round
goes_on s = next_message-goes_on s.world.values s.world s.handled

abbrev launching : System loads in_memory subscribe
launching = record { running = false; position = begun; state = state }

early_stop_is_lost_example :
    ((run loads in_memory subscribe (stop ∷ thread ∷ thread ∷ []) launching).running ≡ true)
    × ¬ HasEnded ((run loads in_memory subscribe (stop ∷ thread ∷ thread ∷ []) launching).position)
early_stop_is_lost_example =
    early_stop_is_lost loads in_memory subscribe (λ w. (w, refl)) goes_on launching (thread ∷ [])
      refl (tt, tt)

-- A test of the flag, a round, a stop signal, the test that finds it, and the `finally` block.
abbrev one_round : List Turn
one_round = thread ∷ thread ∷ stop ∷ thread ∷ thread ∷ []

abbrev testing_flag : System loads in_memory subscribe
testing_flag = record { running = true; position = at_test; state = state }

run-start_example :
    (n : ℕ) × (start loads in_memory n state
      ≡ (ok tt, (run loads in_memory subscribe one_round testing_flag).state))
unfolding turn thread_turn stop_consumer round process_message
run-start_example = run-start loads in_memory subscribe testing_flag one_round (ok tt) refl refl

-- An environment with the address of the database, and one with the empty text for the servers too.
abbrev with_database : String → Option String
with_database s = if s == "DATABASE_URL" then some "postgresql://db/payments" else none

abbrev no_servers : String → Option String
no_servers s = if s == "KAFKA_BOOTSTRAP_SERVERS" then some "" else with_database s

abbrev to_int : String → Result ℤ
to_int s = if s == "2" then ok (pos 2) else ok (pos 1000)

-- Every consumer begins at the same log.
abbrev connect : ConsumerConfig → Result (in_memory.World)
connect config = ok (state.world)

-- Flask-SQLAlchemy, which wants the address of a database.
abbrev set_up : Values → Result (Unit {0})
set_up v =
    if is_set v.database_uri
    then ok tt
    else err (record { kind = other; text = "'SQLALCHEMY_DATABASE_URI' must be set." })

abbrev log : Logging
log = record {
  processors = [];
  handlers = [];
  root_level = warning_level;
  levels = λ q. none;
  disabled = λ q. false;
}

values_of_no_servers : (v : Values) × (configured no_servers to_int "random" none ≡ ok v)
unfolding configured values base_config
values_of_no_servers = (_, refl)

abbrev process : Result (Option (System loads in_memory subscribe))
process = wsgi no_servers to_int "random" set_up log loads in_memory subscribe connect

wsgi-none_iff_example :
    ((e : Raised) × (set_up (values_of_no_servers.0) ≡ err e) × (process ≡ err e))
    ⊎ (((process ≡ ok none) ↔ (
          (get_config (env_name no_servers to_int "random") ≡ testing)
          ⊎ (no_servers "KAFKA_BOOTSTRAP_SERVERS" ≡ some "")))
        × ((process ≡ ok none)
            ⊎ IsStarted no_servers to_int "random" set_up log loads in_memory subscribe connect
                process))
wsgi-none_iff_example =
    wsgi-none_iff no_servers to_int "random" set_up log loads in_memory subscribe connect
      (values_of_no_servers.0) (values_of_no_servers.1) (λ k. (state.world, refl))

values_with_database : (v : Values) × (configured with_database to_int "random" none ≡ ok v)
unfolding configured values base_config
values_with_database = (_, refl)

wsgi-init_app_example :
    ((e : Raised) × (init_app with_database ≡ err e))
    × ((s : System loads in_memory subscribe) × (wsgi with_database to_int "random" set_up log loads
            in_memory subscribe connect
          ≡ ok (some s))
        × (s.state ≡ record { world = state.world; handled = [] }))
unfolding get_config values_with_database
wsgi-init_app_example =
    wsgi-init_app with_database to_int "random" set_up log loads in_memory subscribe connect
      (values_with_database.0) (state.world) refl refl (values_with_database.1) refl refl
