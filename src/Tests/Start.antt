-- ===== src/Tests/Start.antt =====
-- A start, a shutdown, and the commands.
use go_with_me.Base.{
  ℕ, String, true, false, none, some, [], ◌∷◌, ◌≡◌, refl, arith, ◌⊎◌, inl, ◌↔◌, ◌=ₛ◌, map,
}
use go_with_me.Base.Text.{to_lower, trim_space}
use go_with_me.ApiError.{canceled}
use go_with_me.Config.{Config}
use go_with_me.Config.Load.{
  ParseUrl, loaded, load, read_dsns, validate, trimmed_dsns, require_url, require_read_urls,
  check_secret, check_stream,
}
use go_with_me.Config.Laws.{IsUsable, load_lem}
use go_with_me.World.{World, IsUp}
use go_with_me.Services.Auth.Bootstrap.{ensure_bootstrap_admin, create_bootstrap_admin}
use go_with_me.Repository.Users
use go_with_me.App.Admins.{IsManaged}
use go_with_me.Jobs.Worker.{Running, launched, Reach, start, later, cancel, stop}
use go_with_me.Bootstrap.Process.{Process, started, failed, connect_redis, ping_redis}
use go_with_me.Bootstrap.Database.{
  Drivers, Db, connect, connect_pool, connect_readers, run_pending, close_db,
}
use go_with_me.Bootstrap.Database.RoundRobin.{picks, replicas_in_turn}
use go_with_me.Bootstrap.Start.{wire, new_app, new_with, connect_redis_client}
use go_with_me.Bootstrap.Start.Lifecycle.{failed_start_closes}
use go_with_me.Bootstrap.Start.FirstAdmin.{new_app-IsManaged}
use go_with_me.Bootstrap.Run.{context_done}
use go_with_me.Commands.{main_server, main_worker}
use go_with_me.Commands.Exits.{main_server_lem, main_worker_fails}
use go_with_me.Http.Managed.{serve_all}
use go_with_me.Tests.{town, libraries, settings}
use go_with_me.Tests.Routes.{server, removals}

abbrev replicated : Config
replicated = record settings { database_read_urls = "postgres://r1" ∷ " " ∷ "postgres://r2" ∷ [] }

abbrev urls : ParseUrl
urls raw = some ("postgres", "host")

load_lem_example :
    (load urls (inl replicated) ≡ loaded replicated)
    ↔ (◌≡◌ {A = Config ⊎ String} (inl replicated) (inl replicated) × IsUsable urls replicated)
load_lem_example = load_lem urls (inl replicated) replicated

abbrev bare : World
bare = record town { users = [] }

-- Nothing is open, and no handle has been made.
abbrev idle : World → Process
idle w = record { world = w; next = 0; is_open = λ x. false }

abbrev drivers : Drivers
drivers = record {
  makes_pool = λ dsn p. true;
  pool_answers = λ pool p. true;
  opens_migrations = λ dsn p. true;
  parses_redis_url = λ url p. true;
  redis_answers = λ client p. true;
  up = λ w. (true, w);
  builds_logger = λ app_env p. true;
  stops_server = λ p. none;
}

abbrev silent : Drivers
silent = record drivers { redis_answers = λ client p. false }

abbrev database : Db
database = record { write = 0; read = 1 ∷ 2 ∷ []; rr = 0 }

usable : load urls (inl replicated) ≡ loaded replicated
unfolding load validate require_url require_read_urls check_secret check_stream read_dsns
    trimmed_dsns trim_space ◌=ₛ◌
usable = refl

-- The handle of the migrations is 3, and that of Redis 4.
abbrev running : World → Process
running w = (new_app drivers libraries urls (inl replicated) (idle w)).1

begun :
    new_app drivers libraries urls (inl replicated) (idle town)
    ≡ (started (wire libraries replicated database 4), running town)
unfolding new_app new_with load validate require_url require_read_urls check_secret check_stream
    read_dsns trimmed_dsns trim_space ◌=ₛ◌ connect connect_pool connect_readers run_pending
    connect_redis_client ensure_bootstrap_admin Users.count_super_admins
begun = refl

begun_bare :
    new_app drivers libraries urls (inl replicated) (idle bare)
    ≡ (started (wire libraries replicated database 4), running bare)
unfolding new_app new_with load validate require_url require_read_urls check_secret check_stream
    read_dsns trimmed_dsns trim_space ◌=ₛ◌ connect connect_pool connect_readers run_pending
    connect_redis_client ensure_bootstrap_admin create_bootstrap_admin Users.count_super_admins
    Users.create to_lower
begun_bare = refl

main_server_lem_example :
    let ended = main_server drivers libraries urls (inl replicated) context_done (idle town) in
    (ended.0 ≡ 0) × ((x : ℕ) → ended.1.is_open x ≡ false)
main_server_lem_example =
    main_server_lem drivers libraries (idle town) (λ x h. refl) urls (inl replicated) begun

abbrev stuck : Process
stuck = (new_app silent libraries urls (inl replicated) (idle town)).1

not_begun :
    new_app silent libraries urls (inl replicated) (idle town)
    ≡ (failed (connect_redis ping_redis), stuck)
unfolding new_app new_with load validate require_url require_read_urls check_secret check_stream
    read_dsns trimmed_dsns trim_space ◌=ₛ◌ connect connect_pool connect_readers run_pending
    connect_redis_client close_db
not_begun = refl

failed_start_closes_example :
    (stuck.is_open 0 ≡ false)
    ⊎ ((connect_redis ping_redis ≡ connect_redis ping_redis) × (◌≡◌ {A = ℕ} 1 stuck.next))
failed_start_closes_example =
    failed_start_closes silent libraries (idle town) (λ x h. refl) urls (inl replicated) not_begun 0

up : IsUp libraries
up s w = refl

filled : (replicated.bootstrap_admin_email =ₛ "") ≡ false
unfolding ◌=ₛ◌
filled = refl

filled_password : (replicated.bootstrap_admin_password =ₛ "") ≡ false
unfolding ◌=ₛ◌
filled_password = refl

new_app-IsManaged_example : IsManaged (serve_all server removals (running bare).world)
unfolding ◌=ₛ◌
new_app-IsManaged_example =
    new_app-IsManaged drivers libraries replicated (idle bare) urls (inl replicated)
      "#root password" usable begun_bare up tt filled filled_password refl refl server removals

-- The worker is stopped.
abbrev stopped : Running
stopped = record {
  pcs = [];
  channel = [];
  is_closed = false;
  cancelled = true;
  result = some (some canceled);
  sent = [];
}

stopped_worker : Reach (launched (record { jobs = [] })) stopped
stopped_worker = later (later start (cancel refl refl)) (stop refl refl refl refl)

main_worker_fails_example :
    main_worker drivers libraries urls (inl replicated) (some canceled) (idle town)
    ≡ (1, running town)
main_worker_fails_example =
    main_worker_fails drivers libraries (idle town) (λ x h. refl) urls (inl replicated) begun
      stopped_worker refl

replicas_in_turn_example :
    picks 3 (record { write = 9; read = 5 ∷ 6 ∷ 7 ∷ []; rr = 4 }) ≡ map some (6 ∷ 7 ∷ 5 ∷ [])
replicas_in_turn_example =
    replicas_in_turn (record { write = 9; read = 5 ∷ 6 ∷ 7 ∷ []; rr = 4 }) (omega arith)
      (omega arith)
