-- ===== src/Bootstrap/Run.antt =====
-- `RunAll`, `RunAPI` and `RunWorker` of internal/bootstrap/app.go.
use go_with_me.Base.{Bool, true, Option, none, some, ◌≡◌}
use go_with_me.ApiError.{Error}
use go_with_me.Bootstrap.Process.{Process}
use go_with_me.Bootstrap.Database.{Drivers}
use go_with_me.Bootstrap.Start.{App, shutdown}

-- How `ListenAndServe` has ended: with `http.ErrServerClosed`, or with another error.
pub data ListenEnd : Type 0 where
  server_closed : ListenEnd
  listen_failed : Error → ListenEnd

-- What the goroutine of the server sends.
abbrev pub sent_by : Option ListenEnd → Option Error
sent_by none = none
sent_by (some server_closed) = none
sent_by (some (listen_failed e)) = some e

-- The case that `select` takes. Where both are ready it is either.
pub data Woken : Type 0 where
  server_failed : Error → Woken
  context_done : Woken

pub data Ready (ended : Option ListenEnd) (is_done : Bool) : Woken → Type 0 where
  on_error : (e : Error) → sent_by ended ≡ some e → Ready ended is_done (server_failed e)
  on_done : is_done ≡ true → Ready ended is_done context_done

unfoldable pub run_api : Drivers → App → Woken → Process → Option Error × Process
run_api d app (server_failed e) p = (some e, p)
run_api d app context_done p = shutdown d app p

-- With the worker and the scheduler, whose results are not looked at.
unfoldable pub run_all : Drivers → App → Woken → Process → Option Error × Process
run_all d app (server_failed e) p = (some e, p)
run_all d app context_done p = shutdown d app p

-- With the result of the worker's `Run`.
unfoldable pub run_worker : App → Option Error → Process → Option Error × Process
run_worker app result p = (result, p)
