-- ===== src/Settings.antt =====
-- The choice of the configuration: `get_config` of data-processing-service/app/config/settings.py.
pub mod Values
use global_payments_api.Prelude.{String, ◌==◌, ◌≡◌, ◌↔◌, ◌⊎◌, arith, eq_iff, if◌then◌else◌}

pub data Config : Type 0 where
  development testing production : Config

-- `_config_map.get(env_name, ProductionConfig)`
unfoldable pub get_config : String → Config
get_config env_name =
    if env_name == "development"
    then development
    else if env_name == "testing"
    then testing
    else if env_name == "production"
    then production
    else if env_name == "local"
    then development
    else if env_name == "test"
    then testing
    else production

-- The configuration of the tests is chosen for the names "testing" and "test", and for no other.
pub get_config-testing_iff :
    (env_name : String)
    → ((get_config env_name ≡ testing) ↔ ((env_name ≡ "testing") ⊎ (env_name ≡ "test")))
unfolding get_config
get_config-testing_iff env_name = ground (
  arith,
  eq_iff env_name "development",
  eq_iff env_name "testing",
  eq_iff env_name "production",
  eq_iff env_name "local",
  eq_iff env_name "test",
  eq_iff "testing" "development",
  eq_iff "test" "development",
  eq_iff "test" "production",
  eq_iff "test" "local",
  eq_iff "test" "testing",
)
