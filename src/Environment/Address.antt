-- ===== src/Environment/Address.antt =====
-- Which database the migrations are run on.
use global_payments_api.Prelude.{
  ℕ, ℤ, String, Bool, true, false, List, ◌∷◌, [], ◌++◌, Option, some, ◌≡◌, ◌≢◌, refl, sym, ap, ◌∙◌,
  ◌⊎◌, inl, inr, eqb, arith, eq_iff,
}
use global_payments_api.Python.Raised.{Result, ok, err, Exec, Raised}
use global_payments_api.Python.Decimal.Parse.{codes}
use global_payments_api.Python.Options.{
  Text, Options, percent, open_paren, has_percent, raw_option, store, set_option, items,
}
use global_payments_api.Python.Options.Plain.{
  set_option-plain, set_option_stray, get_option-plain, raw_option-store, items-plain,
}
use global_payments_api.Settings.Values.{Values, is_set, configured}
use global_payments_api.Logging.{Logging, configure_logging}
use global_payments_api.Application.{create_app}
use global_payments_api.Environment.{
  Call, configure_offline, make_engine, url_name, alembic_ini, file_config, then_do, in_transaction,
  on_connection, logged, main_options, environment, with_app, run_migrations_offline,
  run_migrations_online,
}

set_of_not_empty : (u : String) → u ≢ "" → is_set (some u) ≡ true
set_of_not_empty u h = ground (arith, h, eq_iff u "")

-- An exception was raised, and the world is as it was.
abbrev pub IsRefused : {W : Type 0} → W → Result (Unit {0}) × Logging × W → Type 0
IsRefused w (r, log, w') = ((e : Raised) × (r ≡ err e)) × (w' ≡ w)

nil_ne_cons : {x : ℕ} {xs : Text} → ¬ (◌≡◌ {A = Text} [] (x ∷ xs))
nil_ne_cons e = cc

not_empty : (u : String) (before after : Text) (c : ℕ) → codes u ≡ before ++ (c ∷ after) → u ≢ ""
not_empty u [] after c h e = absurd (nil_ne_cons (sym (ap codes e) ∙ h))
not_empty u (x ∷ before) after c h e = absurd (nil_ne_cons (sym (ap codes e) ∙ h))

module _ {W : Type 0} (perform : Call → Exec W (Unit {0})) (env : String → Option String)
    (to_int : String → Result ℤ) (urandom : String) (set_up : Values → Result (Unit {0}))
    (existing : List String → Bool) where
  main_options-plain :
      (u : String)
      → env "DATABASE_URL" ≡ some u
      → u ≢ ""
      → has_percent (codes u) ≡ false
      → main_options perform env to_int urandom set_up existing alembic_ini
        ≡ ok (store url_name (codes u) alembic_ini)
  unfolding main_options
  main_options-plain u e full plain =
      rw (e, set_of_not_empty u full) (set_option-plain url_name (codes u) alembic_ini plain)

  section-plain :
      (v : Text)
      → has_percent v ≡ false
      → items (store url_name v alembic_ini) ≡ ok (store url_name v alembic_ini)
  section-plain v plain =
      items-plain (store url_name v alembic_ini) (refl, (refl, (refl, (plain, tt))))

  -- With an address in DATABASE_URL that has no percent sign, and where the application can be made:
  -- the migrations are run on that address. Offline, Alembic is given it and then runs the migrations
  -- in a transaction; online, the engine is made of a section that has it, and then they are run
  -- on a connection.
  pub environment-address :
      (u : String) (v : Values) (log : Logging) (w : W)
      → env "DATABASE_URL" ≡ some u
      → u ≢ ""
      → has_percent (codes u) ≡ false
      → configured env to_int urandom (some "production") ≡ ok v
      → set_up v ≡ ok tt
      → (environment perform env to_int urandom set_up existing true alembic_ini log w
          ≡ logged perform env to_int urandom set_up existing
              (configure_logging v.debug (file_config existing log))
              (then_do perform (perform (configure_offline (codes u)) w) (in_transaction perform)))
        × ((section : Options) × (raw_option url_name section ≡ some (codes u))
            × (environment perform env to_int urandom set_up existing false alembic_ini log w
                ≡ logged perform env to_int urandom set_up existing
                    (configure_logging v.debug (file_config existing log))
                    (then_do perform (perform (make_engine section) w) (on_connection perform))))
  unfolding environment create_app run_migrations_offline run_migrations_online
  environment-address u v log w e full plain c d =
      let o = main_options-plain u e full plain in
      (
        rw (o, c, d, get_option-plain url_name (codes u) alembic_ini plain) refl,
        (
          store url_name (codes u) alembic_ini,
          raw_option-store url_name (codes u) alembic_ini,
          rw (o, c, d, section-plain (codes u) plain) refl,
        ),
      )

  IsRefused-app :
      (offline : Bool) (m : Result Values × Logging) (w : W)
      → IsRefused w (with_app perform env to_int urandom set_up existing offline alembic_ini m w)
  unfolding run_migrations_offline run_migrations_online
  IsRefused-app offline (err e, log) w = ((e, refl), refl)
  IsRefused-app true (ok v, log) w = ((_, refl), refl)
  IsRefused-app false (ok v, log) w = ((_, refl), refl)

  -- Where DATABASE_URL is missing or empty, or where its first percent sign is followed neither by
  -- another one nor by a parenthesis, as in a password with an escaped character: in both modes the
  -- environment raises, and nothing is asked of Alembic and of SQLAlchemy.
  pub environment-IsRefused :
      (offline : Bool) (log : Logging) (w : W)
      → (is_set (env "DATABASE_URL") ≡ false)
        ⊎ ((u : String) × (before : Text) × (after : Text) × (c : ℕ) × (env "DATABASE_URL" ≡ some u)
            × (codes u ≡ before ++ (percent ∷ c ∷ after))
            × (has_percent before ≡ false)
            × (eqb c percent ≡ false)
            × (eqb c open_paren ≡ false))
      → IsRefused w
          (environment perform env to_int urandom set_up existing offline alembic_ini log w)
  unfolding environment main_options
  environment-IsRefused offline log w (inl missing) = rw missing (
      IsRefused-app offline
        (create_app env to_int urandom set_up (some "production") (file_config existing log)) w)
  environment-IsRefused offline log w (inr (u, before, after, c, e, split, h, k, l)) =
      let full = set_of_not_empty u (not_empty u before (c ∷ after) percent split) in
      let stray =
        ap (λ t. set_option url_name t alembic_ini) split
        ∙ set_option_stray url_name before after c alembic_ini h k l in
      rw (e, full, stray) ((_, refl), refl)
