-- ===== src/Http/Panics.antt =====
-- internal/api/middleware: recovery.go and request_logger.go, and audit.go where the handler panics.
-- A handler that may panic, and writes to the log, is a chain; `recover` is in `recovery` alone.
pub mod Served
use go_with_me.Base.{
  ℕ, ◌-◌, String, Bool, true, false, ◌||◌, not, Option, none, some, List, [], ◌∷◌, ◌++◌, ◌=ₛ◌, leb,
  if◌then◌else◌,
}
use Prim.Native.String.{◌++◌ as text_append}
use go_with_me.ApiError.{Error}
use go_with_me.World.{World, Env}
use go_with_me.Action.{Result, ok, err}
use go_with_me.Http.{HttpRequest, Identity, Handler, Response, failure, status}
use go_with_me.Http.Audit.{create, audit_params, audit_after, is_write_method}
use go_with_me.Http.RequestId.{request_id}

-- The lines of the log, with the fields that each names.
pub data LogLine : Type 0 where
  panic_recovered : (cause path method request_id : String) → LogLine
  request :
      (method path : String) → (status latency : ℕ) → (ip request_id user_agent : String) → LogLine
  audit_failed : (action resource : String) → Error → LogLine

-- A handler returns, with the response that it has written, or it panics, perhaps after writing one.
pub data Outcome : Type 0 where
  answers : Response → Outcome
  panics : (cause : String) (written : Option Response) → Outcome

abbrev pub Chain : Type 0
Chain = HttpRequest → Identity → World → Outcome × World × List LogLine

abbrev pub chain_of : Handler → Chain
chain_of h r i w = let (answer, w') = h r i w in (answers answer, w', [])

-- The `gin.H` of the recovery.
abbrev pub internal_error : Response
internal_error = failure 500 "INTERNAL_ERROR" "internal server error" []

-- `AbortWithStatusJSON`; `again` is what gin makes of a second response on top of a first.
abbrev pub abort_with : (Response → Response → Response) → Option Response → Response
abort_with again none = internal_error
abort_with again (some first) = again first internal_error

abbrev pub panic_line : String → HttpRequest → LogLine
panic_line cause r = panic_recovered cause r.path r.method r.request_id

abbrev recovered :
    (Response → Response → Response)
    → HttpRequest
    → Outcome × World × List LogLine
    → Outcome × World × List LogLine
recovered again r (answers a, w, lines) = (answers a, w, lines)
recovered again r (panics cause written, w, lines) =
    (answers (abort_with again written), w, lines ++ panic_line cause r ∷ [])

unfoldable pub recovery : (Response → Response → Response) → Chain → Chain
recovery again next r i w = recovered again r (next r i w)

-- `path`, with the raw query where there is one.
abbrev pub full_url : HttpRequest → String
full_url r = if r.raw_query =ₛ "" then r.path else text_append r.path (text_append "?" r.raw_query)

abbrev pub request_line : HttpRequest → Response → ℕ → ℕ → LogLine
request_line r a start now =
    request r.method (full_url r) (status a) (now - start) r.client_ip r.request_id r.user_agent

-- A panic passes the log by.
abbrev logged : HttpRequest → ℕ → Outcome × World × List LogLine → Outcome × World × List LogLine
logged r start (answers a, w, lines) = (answers a, w, lines ++ request_line r a start w.now ∷ [])
logged r start (panics cause written, w, lines) = (panics cause written, w, lines)

unfoldable pub request_logger : Chain → Chain
request_logger next r i w = logged r w.now (next r i w)

-- The middleware of every route, in the order of `Setup`.
unfoldable pub global : Env → (Response → Response → Response) → Chain → Chain
global env again next = request_id env (request_logger (recovery again next))

module _ (env : Env) (encode : HttpRequest → ℕ → String) where
  abbrev warned : String → String → Result (Unit {0}) → List LogLine
  warned action resource (ok _) = []
  warned action resource (err e) = audit_failed action resource e ∷ []

  abbrev audited :
      String
      → String
      → HttpRequest
      → Identity
      → Outcome × World × List LogLine
      → Outcome × World × List LogLine
  audited action resource r i (panics cause written, w, lines) = (panics cause written, w, lines)
  audited action resource r i (answers a, w, lines) =
      if not (is_write_method r.method) || leb 500 (status a)
      then (answers a, w, lines)
      else let (result, w') =
          create env encode (audit_params env encode action resource r i (status a)) w in
        (answers a, w', lines ++ warned action resource result)

  -- `Audit` around a handler that may panic: what comes after `c.Next()` is then not reached.
  unfoldable pub audit_chain : String → String → Chain → Chain
  audit_chain action resource next r i w = audited action resource r i (next r i w)
