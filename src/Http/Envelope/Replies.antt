-- ===== src/Http/Envelope/Replies.antt =====
-- Handlers that answer with standard responses, and the middleware around them.
use go_with_me.Base.{
  ℕ, String, Bool, true, false, Option, some, none, List, refl, if◌then◌else◌, ◌=ₛ◌, ◌&&◌, not, any,
}
use go_with_me.ApiError.{Error, ApiError, as_api_error}
use go_with_me.Claims.{Claims, purpose_session}
use go_with_me.World.{World, Env}
use go_with_me.Action.{Action, Result, ok, err}
use go_with_me.Token.{parse_at}
use go_with_me.Http.{HttpRequest, Identity, Handler, Response}
use go_with_me.Http.Answers.{api_error_or_internal, fail, respond, respond_of}
use go_with_me.Http.Auth.{
  unauthorized_response, require_purpose, admit, identity_of, extract_bearer,
}
use go_with_me.Http.Roles.{forbidden_response, require_role}
use go_with_me.Http.Audit.{audit, audit_after}
use go_with_me.Http.RateLimit.{Redis, rate_limit, limit_by, check_rate_limit, too_many}
use go_with_me.Http.Envelope.{Kind, IsPair, IsPairOf, IsStandard, IsReply}
use go_with_me.Http.Envelope.Errors.{Fails, IsGood}

pub record Replies (h : Handler) : Type 0 where
  pub at : (r : HttpRequest) (i : Identity) (w : World) → IsReply (h r i w).0

fail-IsPair :
    (o : Option ApiError)
    → IsPairOf o
    → IsPair (api_error_or_internal o).code (api_error_or_internal o).status
fail-IsPair none h = (Kind.internal, refl, refl)
fail-IsPair (some e) h = h

fail-IsReply : (e : Error) → IsStandard e → IsReply (fail e)
unfolding fail
fail-IsReply e h = fail-IsPair (as_api_error e) h.pair

if-IsReply :
    (c : Bool) (p q : Response × World) → IsReply p.0 → IsReply q.0 → IsReply (if c then p else q).0
if-IsReply true p q h h' = h
if-IsReply false p q h h' = h'

pub one_of : (c : Bool) (a b : Response) → IsReply a → IsReply b → IsReply (if c then a else b)
one_of true a b h h' = h
one_of false a b h h' = h'

respond_of-IsReply :
    {A : Type 0} (f : A → Response) (p : Result A × World)
    → ((a : A) → IsReply (f a))
    → IsGood p.0
    → IsReply (respond_of f p).0
respond_of-IsReply f (ok a, w) hf h = hf a
respond_of-IsReply f (err e, w) hf h = fail-IsReply e h

pub respond-Replies :
    {A : Type 0} (m : HttpRequest → Identity → Action A) (f : HttpRequest → A → Response)
    → ((r : HttpRequest) (i : Identity) → Fails (m r i))
    → ((r : HttpRequest) (a : A) → IsReply (f r a))
    → Replies (λ r i. respond (m r i) (f r))
respond-Replies m f hm hf = record {
  at = λ r i w. respond_of-IsReply (f r) (m r i w) (hf r) ((hm r i).at w);
}

-- The middleware.
limit_by-IsReply :
    (max : ℕ) (count : Option ℕ) (next : Handler) (r : HttpRequest) (i : Identity) (w : World)
    → Replies next
    → IsReply (limit_by max count next r i w).0
limit_by-IsReply max none next r i w k = k.at r i w
limit_by-IsReply max (some count) next r i w k =
    if-IsReply (check_rate_limit max count).1 (next r i w) (too_many, w) (k.at r i w)
      (Kind.too_many_requests, refl, refl)

pub rate_limit-Replies :
    (redis : Redis) (namespace : String) (max : ℕ) (next : Handler)
    → Replies next
    → Replies (rate_limit redis namespace max next)
unfolding rate_limit
rate_limit-Replies redis namespace max next k = record {
  at = λ r i w. limit_by-IsReply max _ next r i w k;
}

admit-IsReply :
    (expected : String) (c : Option Claims) (next : Handler) (r : HttpRequest) (i : Identity)
    (w : World)
    → Replies next
    → IsReply (admit expected c next r i w).0
admit-IsReply expected none next r i w k = (Kind.unauthorized, refl, refl)
admit-IsReply expected (some c) next r i w k =
    let session : Bool = expected =ₛ purpose_session && c.role =ₛ "" in
    let claims : Response × World = (unauthorized_response "invalid token claims", w) in
    let inner : Response × World = if session then claims else next r (identity_of c) w in
    if-IsReply (not (c.purpose =ₛ expected))
      (unauthorized_response "token not valid for this endpoint", w) inner
      (Kind.unauthorized, refl, refl)
      (if-IsReply session claims (next r (identity_of c) w) (Kind.unauthorized, refl, refl)
        (k.at r (identity_of c) w))

pub require_purpose-Replies :
    (env : Env) (secret purpose : String) (next : Handler)
    → Replies next
    → Replies (require_purpose env secret purpose next)
unfolding require_purpose
require_purpose-Replies env secret purpose next k = record {
  at = λ r i w.
      if-IsReply (extract_bearer r =ₛ "") (unauthorized_response "missing authorization token", w)
        (admit purpose (parse_at env w.now (extract_bearer r) secret) next r i w)
        (Kind.unauthorized, refl, refl)
        (admit-IsReply purpose (parse_at env w.now (extract_bearer r) secret) next r i w k);
}

pub require_role-Replies :
    (roles : List String) (next : Handler) → Replies next → Replies (require_role roles next)
unfolding require_role
require_role-Replies roles next k = record {
  at = λ r i w.
      if-IsReply (any (λ role. role =ₛ i.user_role) roles) (next r i w)
        (forbidden_response "insufficient role for this action", w) (k.at r i w)
        (Kind.forbidden, refl, refl);
}

audit_after-IsReply :
    (env : Env) (encode : HttpRequest → ℕ → String) (action resource : String) (r : HttpRequest)
    (i : Identity) (p : Response × World)
    → IsReply p.0
    → IsReply (audit_after env encode action resource r i p).0
audit_after-IsReply env encode action resource r i (answer, w) h = if-IsReply _ _ _ h h

pub audit-Replies :
    (env : Env) (encode : HttpRequest → ℕ → String) (action resource : String) (next : Handler)
    → Replies next
    → Replies (audit env encode action resource next)
unfolding audit
audit-Replies env encode action resource next k = record {
  at = λ r i w. audit_after-IsReply env encode action resource r i (next r i w) (k.at r i w);
}
