-- ===== src/Wsgi.antt =====
-- The process of data-processing-service/wsgi.py: the application that `create_app` makes, and the
-- consumer's thread that its settings start. `connect` is `Consumer` of confluent_kafka, `log` the
-- logging of the process before, and `set_up` what the extensions and Flask do to the application.
-- Flask-SQLAlchemy raises in it where the settings have no address of a database.
use mathlib.Core.Path.{subst}
use global_payments_api.Prelude.{
  ℤ, String, ◌==◌, eq_iff, ◌≡◌, refl, sym, ap, ◌∙◌, ◌↔◌, ◌⊎◌, inl, inr, arith, true, false,
  Bool-cases, Option, none, some, [],
}
use global_payments_api.Python.Raised.{
  Raised, Result, ok, err, Result-cases, ◌>>=◌, >>=-eq-ok, Exec,
}
use global_payments_api.Settings.{Config, development, testing, production, get_config}
use global_payments_api.Settings.Values.{
  Values, is_set, or_default, base_config, overridden, values, configured, init_app,
}
use global_payments_api.Logging.{Logging}
use global_payments_api.Application.{create_app}
use global_payments_api.Kafka.{Json, Client, State, ConsumerConfig, consumer_config, new_consumer}
use global_payments_api.Kafka.Thread.{System, begun, start_consumer_thread}

module _ (env : String → Option String) (to_int : String → Result ℤ) (urandom : String) where
  -- The name of the configuration that the process asks for.
  abbrev pub env_name : String
  env_name = or_default (env "FLASK_ENV") "production"

  servers_of_base :
      (b : Values)
      → base_config env to_int urandom ≡ ok b
      → b.kafka_servers ≡ some (or_default (env "KAFKA_BOOTSTRAP_SERVERS") "localhost:9092")
  unfolding base_config
  servers_of_base b h =
      let (n, _, h1) = >>=-eq-ok (to_int (or_default (env "RECON_BATCH_SIZE") "1000")) _ h in
      let (k, _, h2) = >>=-eq-ok (to_int (or_default (env "RECON_LOOKBACK_DAYS") "2")) _ h1 in
      sym (ap servers h2)
    where
      servers : Result Values → Option String
      servers (ok v) = v.kafka_servers
      servers (err e) = some (or_default (env "KAFKA_BOOTSTRAP_SERVERS") "localhost:9092")

  default_empty_iff :
      (o : Option String) → (is_set (some (or_default o "localhost:9092")) ≡ false) ↔ (o ≡ some "")
  default_empty_iff none = (λ h. ground (arith, eq_iff "localhost:9092" ""), λ h. cc)
  default_empty_iff (some s) =
      (λ h. ground (arith, eq_iff s ""), λ h. ground (arith, eq_iff s "", eq_iff "" ""))

  servers_iff :
      (c : Config) (b : Values)
      → b.kafka_servers ≡ some (or_default (env "KAFKA_BOOTSTRAP_SERVERS") "localhost:9092")
      → (is_set ((overridden env to_int urandom c b).kafka_servers) ≡ false)
        ↔ ((c ≡ testing) ⊎ (env "KAFKA_BOOTSTRAP_SERVERS" ≡ some ""))
  servers_iff testing b e = (λ h. inl refl, λ h. refl)
  servers_iff development b e =
      let (to, from) = default_empty_iff (env "KAFKA_BOOTSTRAP_SERVERS") in
      (
        λ h. inr (to (ap is_set (sym e) ∙ h)),
        λ h. elim h [ inl q ↦ cc | inr q ↦ ap is_set e ∙ from q ],
      )
  servers_iff production b e =
      let (to, from) = default_empty_iff (env "KAFKA_BOOTSTRAP_SERVERS") in
      (
        λ h. inr (to (ap is_set (sym e) ∙ h)),
        λ h. elim h [ inl q ↦ cc | inr q ↦ ap is_set e ∙ from q ],
      )

  module _ (set_up : Values → Result (Unit {0})) (log : Logging) (loads : String → Result Json)
      (c : Client) (subscribe : Exec c.World (Unit {0}))
      (connect : ConsumerConfig → Result c.World) where
    -- The body of the module.
    unfoldable pub wsgi : Result (Option (System loads c subscribe))
    unfolding create_app start_consumer_thread new_consumer
    wsgi = do
      v ← (create_app env to_int urandom set_up none log).0
      start_consumer_thread loads c subscribe
          (λ servers. new_consumer loads c connect servers v.kafka_group_id v.kafka_topic) false
          v.kafka_servers

    -- What the process does about the thread: there is none, or it stands before its first access.
    abbrev pub IsStarted : Result (Option (System loads c subscribe)) → Type 0
    IsStarted m =
        (s : System loads c subscribe) × (m ≡ ok (some s))
        × (s.position ≡ begun)
        × (s.running ≡ false)

    thread_iff :
        (create_of : String → Result (State loads c)) (o : Option String)
        → ((s : String) → (q : State loads c) × (create_of s ≡ ok q))
        → (((start_consumer_thread loads c subscribe create_of false o) ≡ ok none)
            ↔ (is_set o ≡ false))
          × ((is_set o ≡ true)
              → IsStarted (start_consumer_thread loads c subscribe create_of false o))
    unfolding start_consumer_thread
    thread_iff create_of none creates = ((λ h. refl, λ h. refl), λ h. cc)
    thread_iff create_of (some t) creates =
        let (q, e) = creates t in
        elim (Bool-cases (t == "")) [
          | inl empty ↦ rw empty ((λ h. refl, λ h. refl), λ h. cc)
          | inr full ↦ rw (full, e) ((λ h. absurd (none_ne h), λ h. cc), λ h. (_, refl, refl, refl))
        ]
      where
        none_ne :
            {s : System loads c subscribe}
            → ¬ (◌≡◌ {A = Result (Option (System loads c subscribe))} (ok (some s)) (ok none))
        none_ne e = cc

    made :
        (servers group_id topic : String)
        → ((k : ConsumerConfig) → (w : c.World) × (connect k ≡ ok w))
        → (q : State loads c) × (new_consumer loads c connect servers group_id topic ≡ ok q)
    unfolding new_consumer
    made servers group_id topic connects =
        let (w, e) = connects (consumer_config servers group_id) in rw e (_, refl)

    app-create_app :
        (v : Values) (r : Result (Unit {0}))
        → configured env to_int urandom none ≡ ok v
        → set_up v ≡ r
        → (create_app env to_int urandom set_up none log).0 ≡ (do u ← r; ok v)
    unfolding create_app
    app-create_app v r h e = rw (h, e) refl

    -- The servers of the process, whatever its configuration.
    servers_of_values :
        (v : Values)
        → configured env to_int urandom none ≡ ok v
        → (b : Values) × (b.kafka_servers
            ≡ some (or_default (env "KAFKA_BOOTSTRAP_SERVERS") "localhost:9092"))
          × (v ≡ overridden env to_int urandom (get_config env_name) b)
    unfolding configured values
    servers_of_values v h =
        let (b, base, e) = >>=-eq-ok (base_config env to_int urandom) _ h in
        (b, servers_of_base b base, sym (ap settings e))
      where
        settings : Result Values → Values
        settings (ok x) = x
        settings (err x) = v

    -- Where the settings can be read and every consumer can be made: if setting up the application
    -- raises, so does the process, with the same exception. Otherwise it starts no thread exactly if
    -- its configuration is that of the tests or KAFKA_BOOTSTRAP_SERVERS is set to the empty text; else
    -- it starts a thread that stands before its first access of the flag.
    pub wsgi-none_iff :
        (v : Values)
        → configured env to_int urandom none ≡ ok v
        → ((k : ConsumerConfig) → (w : c.World) × (connect k ≡ ok w))
        → ((e : Raised) × (set_up v ≡ err e) × (wsgi ≡ err e))
          ⊎ (((wsgi ≡ ok none)
                ↔ ((get_config env_name ≡ testing) ⊎ (env "KAFKA_BOOTSTRAP_SERVERS" ≡ some "")))
              × ((wsgi ≡ ok none) ⊎ IsStarted wsgi))
    unfolding wsgi
    wsgi-none_iff v h creates =
        let (b, base, chosen) = servers_of_values v h in
        let servers =
          subst
            (λ x.
              (is_set x.kafka_servers ≡ false)
              ↔ ((get_config env_name ≡ testing) ⊎ (env "KAFKA_BOOTSTRAP_SERVERS" ≡ some "")))
            (sym chosen) (servers_iff (get_config env_name) b base) in
        let (off, on) =
          thread_iff (λ s. new_consumer loads c connect s v.kafka_group_id v.kafka_topic)
            v.kafka_servers (λ s. made s v.kafka_group_id v.kafka_topic creates) in
        elim (Result-cases (set_up v)) [
          | inl (u, q) ↦ rw (app-create_app v (ok u) h q) (
              inr (
                (λ n. servers.0 (off.0 n), λ n. off.1 (servers.1 n)),
                elim (Bool-cases (is_set v.kafka_servers)) [
                  | inl n ↦ inr (on n)
                  | inr n ↦ inl (off.1 n)
                ],
              ))
          | inr (e, q) ↦ rw (app-create_app v (err e) h q) (inl (e, q, refl))
        ]

    thread-of :
        (w : c.World) (group_id topic : String) (o : Option String)
        → o ≡ some "localhost:9092"
        → connect (consumer_config "localhost:9092" group_id) ≡ ok w
        → (s : System loads c subscribe) × (start_consumer_thread loads c subscribe
              (λ servers. new_consumer loads c connect servers group_id topic)
              false
              o
            ≡ ok (some s))
          × (s.state ≡ record { world = w; handled = [] })
    unfolding start_consumer_thread new_consumer
    thread-of w group_id topic o e k = rw (e, eq_iff "localhost:9092" "", k) (_, refl, refl)

    -- In production without KAFKA_BOOTSTRAP_SERVERS, where the application can be set up and a
    -- consumer of the servers at localhost:9092 can be made: `ProductionConfig.init_app` refuses the
    -- environment, but the process starts, with a thread on the consumer of these servers.
    pub wsgi-init_app :
        (v : Values) (w : c.World)
        → get_config env_name ≡ production
        → env "KAFKA_BOOTSTRAP_SERVERS" ≡ none
        → configured env to_int urandom none ≡ ok v
        → set_up v ≡ ok tt
        → connect (consumer_config "localhost:9092" v.kafka_group_id) ≡ ok w
        → ((e : Raised) × (init_app env ≡ err e))
          × ((s : System loads c subscribe) × (wsgi ≡ ok (some s))
              × (s.state ≡ record { world = w; handled = [] }))
    unfolding wsgi init_app
    wsgi-init_app v w p k h q connects =
        let (b, base, chosen) = servers_of_values v h in
        let servers : v.kafka_servers ≡ some "localhost:9092" =
          ap (λ x. x.kafka_servers) chosen
          ∙ ap (λ x. (overridden env to_int urandom x b).kafka_servers) p
          ∙ base
          ∙ ap (λ o. some (or_default o "localhost:9092")) k in
        (
          elim (Bool-cases (is_set (env "DATABASE_URL"))) [
            | inl set ↦ rw (k, set) (_, refl)
            | inr set ↦ rw (k, set) (_, refl)
          ],
          rw (app-create_app v (ok tt) h q)
              (thread-of w v.kafka_group_id v.kafka_topic v.kafka_servers servers connects),
        )
