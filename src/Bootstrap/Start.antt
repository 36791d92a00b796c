-- ===== src/Bootstrap/Start.antt =====
-- `ConnectRedis`, `New` and `Shutdown` of internal/bootstrap. The log lines and the
-- router are left out, and so is gin's release mode.
pub mod Handles
pub mod Lifecycle
pub mod CleanUp
pub mod Worlds
pub mod FirstAdmin
use Prim.Native.String.{◌++◌ as text_append}
use go_with_me.Logger.{zap_config}
use go_with_me.Base.{ℕ, ◌*◌, String, Option, none, some, List, ◌⊎◌, inl, inr}
use go_with_me.ApiError.{Error}
use go_with_me.Config.{Config}
use go_with_me.Config.Load.{ParseUrl, Loaded, loaded, load_failed, load, read_dsns}
use go_with_me.World.{World, Env, second, minute}
use go_with_me.Action.{Action, Result, ok, err}
use go_with_me.Repository.Resets
use go_with_me.Services.Auth.{AuthService, wired_auth_service}
use go_with_me.Services.Auth.Bootstrap.{ensure_bootstrap_admin}
use go_with_me.Jobs.Worker.{Worker, new_worker}
use go_with_me.Jobs.Scheduler.{Scheduler, new_scheduler, every}
use go_with_me.Bootstrap.Process.{
  Process, StartError, load_config, init_logger, parse_redis_url, ping_redis, connect_database,
  run_migrations, connect_redis, bootstrap_admin, Outcome, started, failed, Setup, give, abort,
  handled, ◌>>=◌, ◌>>◌, require, open_handle, close,
}
use go_with_me.Bootstrap.Database.{Drivers, Db, close_db, connect, run_pending}

pub record HttpServer : Type 0 where
  pub addr : String
  pub read_timeout : ℕ
  pub write_timeout : ℕ
  pub idle_timeout : ℕ

-- The pointers may be nil.
pub record App : Type 0 where
  pub config : Config
  pub db : Option Db
  pub redis : Option ℕ
  pub auth : AuthService
  pub jobs : Worker
  pub sched : Scheduler
  pub server : Option HttpServer

-- The client stays open where it does not answer.
unfoldable pub connect_redis_client : Drivers → String → Setup ℕ
connect_redis_client d url = do
  require (d.parses_redis_url url) parse_redis_url
  client ← open_handle
  require (d.redis_answers client) ping_redis
  give client

abbrev pub loaded_or_abort : Loaded → Setup Config
loaded_or_abort (loaded c) = give c
loaded_or_abort (load_failed e) = abort (load_config e)

abbrev pub done_on_world : Process → Result (Unit {0}) × World → Outcome (Unit {0}) × Process
done_on_world p (ok u, w) = (started u, record p { world = w })
done_on_world p (err e, w) = (failed (bootstrap_admin e), record p { world = w })

-- A call on the world, as a step of the start.
abbrev pub on_world : Action (Unit {0}) → Setup (Unit {0})
on_world m p = done_on_world p (m p.world)

abbrev pub http_server : Config → HttpServer
http_server cfg = record {
  addr = text_append ":" cfg.http_port;
  read_timeout = 15 * second;
  write_timeout = 30 * second;
  idle_timeout = 60 * second;
}

module _ (env : Env) where
  -- The only job: every thirty minutes the expired resets are deleted.
  unfoldable pub schedule : Scheduler
  unfolding every
  schedule =
      every (30 * minute) "cleanup.expired_password_resets" (Resets.delete_expired env)
        new_scheduler

  abbrev pub wire : Config → Db → ℕ → App
  wire cfg db rdb = record {
    config = cfg;
    db = some db;
    redis = some rdb;
    auth = wired_auth_service cfg;
    jobs = new_worker;
    sched = schedule;
    server = some (http_server cfg);
  }

module _ (d : Drivers) (env : Env) where
  abbrev pub redis_and_admin : Config → Db → Setup App
  redis_and_admin cfg db = do
    rdb ←
        handled (λ e. do close_db db; abort (connect_redis e)) give
          (connect_redis_client d cfg.redis_url)
    handled (λ e. do close_db db; close rdb; abort e) give
        (on_world (ensure_bootstrap_admin env cfg))
    give (wire env cfg db rdb)

  -- `New`, once the settings are loaded.
  unfoldable pub new_with : Config → Setup App
  new_with cfg = do
    require (d.builds_logger (zap_config cfg.app_env)) init_logger
    db ←
        handled (λ e. abort (connect_database e)) give
          (connect d cfg.database_write_url (read_dsns cfg))
    handled (λ e. do close_db db; abort (run_migrations e)) give
        (run_pending d cfg.database_write_url)
    redis_and_admin cfg db

  unfoldable pub new_app : ParseUrl → Config ⊎ String → Setup App
  unfolding new_with
  new_app parse_url parsed = do cfg ← loaded_or_abort (load parse_url parsed); new_with cfg

abbrev pub close_redis : Option ℕ → Setup (Unit {0})
close_redis none = give tt
close_redis (some client) = close client

-- `db.Close()`, which does nothing where `db` is nil.
abbrev pub close_database : Option Db → Setup (Unit {0})
close_database none = give tt
close_database (some db) = close_db db

abbrev pub close_connections : App → Setup (Unit {0})
close_connections app = do close_redis app.redis; close_database app.db

abbrev pub stop_server : Drivers → Option HttpServer → Process → Option Error
stop_server d none p = none
stop_server d (some server) p = d.stops_server p

-- `Shutdown` returns the server's error, and closes Redis and the database whatever that is.
unfoldable pub shutdown : Drivers → App → Process → Option Error × Process
shutdown d app p = (stop_server d app.server p, (close_connections app p).1)
