-- ===== src/Server.antt =====
-- The settings of data-processing-service/gunicorn.conf.py, and its hook at the end of a worker.
-- `env` is `os.environ.get`, `to_int` is `int` of a text, and `cpu_count` is the number of processors.
-- The format of the access log is left out.
use global_payments_api.Prelude.{
  ℕ, ◌+◌, ◌*◌, ◌<>◌, ℤ, pos, String, ◌≡◌, refl, Bool, true, false, Option, none, some,
}
use global_payments_api.Python.Raised.{Result, ok, err, ◌>>=◌, Exec}
use global_payments_api.Settings.Values.{or_default}

pub record Server : Type 0 where
  pub workers : ℤ
  pub worker_class : String
  pub threads : ℕ
  pub bind : String
  pub backlog : ℕ
  pub timeout : ℕ
  pub graceful_timeout : ℕ
  pub keepalive : ℕ
  pub loglevel : String
  pub accesslog : String
  pub errorlog : String
  pub preload_app : Bool
  pub daemon : Bool

-- `int(x)` of the text of a variable, or of the number that stands in for it
abbrev worker_count : (String → Result ℤ) → Option String → ℕ → Result ℤ
worker_count to_int none n = ok (pos n)
worker_count to_int (some s) n = to_int s

module _ (env : String → Option String) (to_int : String → Result ℤ) (cpu_count : ℕ) where
  unfoldable pub server : Result Server
  server = do
    workers ← worker_count to_int (env "GUNICORN_WORKERS") (cpu_count * 2 + 1)
    ok (record {
      workers = workers;
      worker_class = "sync";
      threads = 1;
      bind = "0.0.0.0:" <> or_default (env "PORT") "5000";
      backlog = 512;
      timeout = 60;
      graceful_timeout = 30;
      keepalive = 5;
      loglevel = or_default (env "LOG_LEVEL") "info";
      accesslog = "-";
      errorlog = "-";
      preload_app = true;
      daemon = false;
    })

-- `worker_exit`: what `db.engine.dispose()` raises is dropped.
abbrev exited : {W : Type 0} → Result (Unit {0}) × W → Result (Unit {0}) × W
exited (ok u, w) = (ok u, w)
exited (err e, w) = (ok tt, w)

unfoldable pub worker_exit : {W : Type 0} → Exec W (Unit {0}) → Exec W (Unit {0})
worker_exit dispose w = exited (dispose w)

-- The hook returns, and leaves what the disposal has left.
worker_exit-Returns :
    {W : Type 0} (dispose : Exec W (Unit {0})) (w : W)
    → worker_exit dispose w ≡ (ok tt, (dispose w).1)
unfolding worker_exit
worker_exit-Returns {W} dispose w = returned (dispose w)
  where
    returned : (m : Result (Unit {0}) × W) → exited m ≡ (ok tt, m.1)
    returned (ok u, v) = refl
    returned (err e, v) = refl
