-- ===== src/Http/Keeps.antt =====
-- Invariants of handlers: what the middleware and the calls keep, a handler keeps.
use go_with_me.Base.{ℕ, arith, String, Option, none, some, List}
use go_with_me.Claims.{Claims}
use go_with_me.World.{World, Env}
use go_with_me.Action.{Action, Result, ok, err, ◌>>=◌}
use go_with_me.Action.Keeps.{Keeps, Keeps-bind}
use go_with_me.Token.{parse_at}
use go_with_me.Http.{HttpRequest, Identity, Handler, Response, status}
use go_with_me.Http.Answers.{respond, respond_of}
use go_with_me.Http.Auth.{admit, require_purpose, extract_bearer, identity_of}
use go_with_me.Http.Roles.{require_role}
use go_with_me.Http.Audit.{audit, audit_after, audit_params, create, CreateAuditParams}
use go_with_me.Http.RateLimit.{Redis, rate_limit, limit_by}
use go_with_me.Http.Body.{Bound, bound, unbound, bind}

pub record Serves (P : World → Type 0) (h : Handler) : Type 0 where
  pub at : (r : HttpRequest) (i : Identity) (w : World) → P w → P (h r i w).1

respond_of-keeps :
    (P : World → Type 0) {A : Type 0} (f : A → Response) (p : Result A × World)
    → P p.1
    → P (respond_of f p).1
respond_of-keeps P f (ok a, w) h = h
respond_of-keeps P f (err e, w) h = h

module _ {P : World → Type 0} where
  pub respond-keeps :
      {A : Type 0} (m : Action A) (f : A → Response)
      → Keeps P m
      → (w : World) → P w
      → P (respond m f w).1
  respond-keeps m f k w h = respond_of-keeps P f (m w) (k.at w h)

  pub Keeps-bind_body : {A : Type 0} (b : Bound A) → Keeps P (bind b)
  Keeps-bind_body (bound a) = record { at = λ w h. h }
  Keeps-bind_body (unbound message) = record { at = λ w h. h }

  -- A call of the value that a body is bound to.
  pub Keeps-bound :
      {A B : Type 0} (b : Bound A) (f : A → Action B)
      → ((a : A) → Keeps P (f a))
      → Keeps P (bind b >>= f)
  Keeps-bound b f k = Keeps-bind (bind b) f (Keeps-bind_body b) k

  limit_by-keeps :
      (max : ℕ) (count : Option ℕ) (next : Handler) (r : HttpRequest) (i : Identity) (w : World)
      → Serves P next
      → P w
      → P (limit_by max count next r i w).1
  limit_by-keeps max none next r i w k h = k.at r i w h
  limit_by-keeps max (some count) next r i w k h = ground (arith, k.at r i w h)

  pub Serves-rate_limit :
      (redis : Redis) (namespace : String) (max : ℕ) (next : Handler)
      → Serves P next
      → Serves P (rate_limit redis namespace max next)
  unfolding rate_limit
  Serves-rate_limit redis namespace max next k = record {
    at = λ r i w h. limit_by-keeps max _ next r i w k h;
  }

  admit-keeps :
      (expected : String) (c : Option Claims) (next : Handler) (r : HttpRequest) (i : Identity)
      (w : World)
      → Serves P next
      → P w
      → P (admit expected c next r i w).1
  admit-keeps expected none next r i w k h = h
  admit-keeps expected (some c) next r i w k h = ground (arith, k.at r (identity_of c) w h)

  pub Serves-require_purpose :
      (env : Env) (secret purpose : String) (next : Handler)
      → Serves P next
      → Serves P (require_purpose env secret purpose next)
  unfolding require_purpose
  Serves-require_purpose env secret purpose next k = record {
    at = λ r i w h.
        ground (
          arith,
          admit-keeps purpose (parse_at env w.now (extract_bearer r) secret) next r i w k h,
        );
  }

  pub Serves-require_role :
      (roles : List String) (next : Handler) → Serves P next → Serves P (require_role roles next)
  unfolding require_role
  Serves-require_role roles next k = record { at = λ r i w h. ground (arith, k.at r i w h) }

  audit_after-keeps :
      (env : Env) (encode : HttpRequest → ℕ → String) (action resource : String)
      → ((params : CreateAuditParams) → Keeps P (create env encode params))
      → (r : HttpRequest) (i : Identity) (p : Response × World) → P p.1
      → P (audit_after env encode action resource r i p).1
  audit_after-keeps env encode action resource logs r i (answer, w) h =
      ground (arith, (logs (audit_params env encode action resource r i (status answer))).at w h)

  pub Serves-audit :
      (env : Env) (encode : HttpRequest → ℕ → String) (action resource : String) (next : Handler)
      → ((params : CreateAuditParams) → Keeps P (create env encode params))
      → Serves P next
      → Serves P (audit env encode action resource next)
  unfolding audit
  Serves-audit env encode action resource next logs k = record {
    at = λ r i w h.
        audit_after-keeps env encode action resource logs r i (next r i w) (k.at r i w h);
  }
