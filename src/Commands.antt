-- ===== src/Commands.antt =====
-- cmd/api/main.go, cmd/server/main.go and cmd/worker/main.go: the exit code, and the process at the end.
pub mod Exits
use go_with_me.Base.{ℕ, String, Option, none, some, ◌⊎◌}
use go_with_me.ApiError.{Error}
use go_with_me.Config.{Config}
use go_with_me.Config.Load.{ParseUrl}
use go_with_me.World.{Env}
use go_with_me.Bootstrap.Process.{Process, Outcome, started, failed}
use go_with_me.Bootstrap.Database.{Drivers}
use go_with_me.Bootstrap.Start.{App, new_app}
use go_with_me.Bootstrap.Run.{Woken, run_api, run_all, run_worker}

abbrev pub exit_code : Option Error → ℕ
exit_code none = 0
exit_code (some e) = 1

abbrev pub exit_of : Option Error × Process → ℕ × Process
exit_of (e, p) = (exit_code e, p)

abbrev pub run_started :
    (App → Process → Option Error × Process) → Outcome App × Process → ℕ × Process
run_started run (started app, p) = exit_of (run app p)
run_started run (failed e, p) = (1, p)

module _ (d : Drivers) (env : Env) (parse_url : ParseUrl) (parsed : Config ⊎ String) where
  -- With what wakes up the `select`.
  unfoldable pub main_api : Woken → Process → ℕ × Process
  main_api woken p = run_started (λ app. run_api d app woken) (new_app d env parse_url parsed p)

  unfoldable pub main_server : Woken → Process → ℕ × Process
  main_server woken p = run_started (λ app. run_all d app woken) (new_app d env parse_url parsed p)

  -- With what the worker's `Run` returns.
  unfoldable pub main_worker : Option Error → Process → ℕ × Process
  main_worker result p =
      run_started (λ app. run_worker app result) (new_app d env parse_url parsed p)
