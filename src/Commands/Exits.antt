-- ===== src/Commands/Exits.antt =====
-- How the commands end.
use go_with_me.Base.{ℕ, String, true, Option, none, some, [], ◌≡◌, refl, ap, ◌⊎◌, inl, inr, arith}
use go_with_me.ApiError.{Error, canceled}
use go_with_me.Config.{Config}
use go_with_me.Config.Load.{ParseUrl}
use go_with_me.World.{Env}
use go_with_me.Jobs.Worker.{Running, launched, Reach}
use go_with_me.Jobs.Worker.FirstError.{run_without_jobs}
use go_with_me.Bootstrap.Process.{Process, started}
use go_with_me.Bootstrap.Process.Handles.{IsFresh}
use go_with_me.Bootstrap.Database.{Drivers}
use go_with_me.Bootstrap.Start.{App, new_app, stop_server}
use go_with_me.Bootstrap.Start.Handles.{Kept}
use go_with_me.Bootstrap.Start.Lifecycle.{new_app-Ends, shutdown-new_app}
use go_with_me.Bootstrap.Run.{context_done, run_all, run_worker}
use go_with_me.Commands.{exit_code, main_server, main_worker}

canceled_result :
    (s : Running) (result : Option Error)
    → (s.result ≡ none) ⊎ ((s.result ≡ some (some canceled)) × (s.cancelled ≡ true))
    → s.result ≡ some result
    → exit_code result ≡ 1
canceled_result s result (inl h) returned = absurd (ground arith)
canceled_result s result (inr h) returned =
    let e : result ≡ some canceled = ground arith in rw e refl

module _ (d : Drivers) (env : Env) (p : Process) (fresh : IsFresh p) where
  no_job :
      (parse_url : ParseUrl) (parsed : Config ⊎ String) {app : App} {q : Process}
      → new_app d env parse_url parsed p ≡ (started app, q)
      → app.jobs.jobs ≡ []
  no_job parse_url parsed {app} {q} run =
      let kept : Kept p app q = rw run at (new_app-Ends d env p fresh parse_url parsed) in kept.4

  -- The worker command, started from a process whose unmade handles are closed, with whatever its
  -- worker's `Run` returns in a state that the worker gets to: the exit code is 1, also where the
  -- context was cancelled in order to stop it, and nothing that the start opened is closed.
  pub main_worker_fails :
      (parse_url : ParseUrl) (parsed : Config ⊎ String) {app : App} {q : Process} {s : Running}
      {result : Option Error}
      → new_app d env parse_url parsed p ≡ (started app, q)
      → Reach (launched app.jobs) s
      → s.result ≡ some result
      → main_worker d env parse_url parsed result p ≡ (1, q)
  unfolding main_worker run_worker
  main_worker_fails parse_url parsed {app} {q} {s} {result} run r returned =
      let alone = run_without_jobs app.jobs (no_job parse_url parsed run) r in
      rw (run, canceled_result s result alone returned) refl

  -- The server command, started from a process whose unmade handles are closed, where the context is
  -- cancelled: the exit code is 0 if the HTTP server stops without an error, and 1 otherwise; either
  -- way every handle is as it was before the start.
  pub main_server_lem :
      (parse_url : ParseUrl) (parsed : Config ⊎ String) {app : App} {q : Process}
      → new_app d env parse_url parsed p ≡ (started app, q)
      → let ended = main_server d env parse_url parsed context_done p in
        (ended.0 ≡ exit_code (stop_server d app.server q))
        × ((x : ℕ) → ended.1.is_open x ≡ p.is_open x)
  unfolding main_server run_all
  main_server_lem parse_url parsed {app} {q} run =
      let stopped = shutdown-new_app d env p fresh parse_url parsed run in
      rw run (ap exit_code stopped.0, stopped.1)
