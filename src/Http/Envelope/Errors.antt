-- ===== src/Http/Envelope/Errors.antt =====
-- Calls whose errors are standard: one rule for each way to make an error, and to build a call.
use go_with_me.Base.{String, Bool, true, false, Option, none, some, refl, if◌then◌else◌}
use go_with_me.ApiError.{
  Error, Sentinel, sentinel, no_rows, wrapped, plain, bad_request_error, unauthorized_error,
  conflict_error,
}
use go_with_me.World.{World, Env, Statement}
use go_with_me.Action.{
  Action, Result, ok, err, pure, raise, gets, or_raise, map_error, map_error_of, wrap, attempt,
  ignore, query, bind_of, modify, raise_if, ◌>>=◌,
}
use go_with_me.Http.Body.{Bound, bound, unbound, bind}
use go_with_me.Http.Envelope.{IsStandard, Kind}

pub sentinel-IsStandard : (s : Sentinel) → IsStandard (sentinel s)
sentinel-IsStandard Sentinel.bad_request = record { pair = (Kind.bad_request, refl, refl) }
sentinel-IsStandard Sentinel.unauthorized = record { pair = (Kind.unauthorized, refl, refl) }
sentinel-IsStandard Sentinel.forbidden = record { pair = (Kind.forbidden, refl, refl) }
sentinel-IsStandard Sentinel.not_found = record { pair = (Kind.not_found, refl, refl) }
sentinel-IsStandard Sentinel.conflict = record { pair = (Kind.conflict, refl, refl) }
sentinel-IsStandard Sentinel.internal_server = record { pair = (Kind.internal, refl, refl) }
sentinel-IsStandard Sentinel.too_many_requests = record {
  pair = (Kind.too_many_requests, refl, refl);
}

pub bad_request-IsStandard : (message : String) → IsStandard (bad_request_error message)
bad_request-IsStandard message = record { pair = (Kind.bad_request, refl, refl) }

pub unauthorized-IsStandard : (message : String) → IsStandard (unauthorized_error message)
unauthorized-IsStandard message = record { pair = (Kind.unauthorized, refl, refl) }

pub conflict-IsStandard : (message : String) → IsStandard (conflict_error message)
conflict-IsStandard message = record { pair = (Kind.conflict, refl, refl) }

-- These are no `*APIError`.
pub wrapped-IsStandard : (message : String) (e : Error) → IsStandard (wrapped message e)
wrapped-IsStandard message e = record { pair = tt }

pub plain-IsStandard : (text : String) → IsStandard (plain text)
plain-IsStandard text = record { pair = tt }

pub no_rows-IsStandard : IsStandard no_rows
no_rows-IsStandard = record { pair = tt }

pub if-IsStandard :
    (test : Bool) (e e' : Error)
    → IsStandard e
    → IsStandard e'
    → IsStandard (if test then e else e')
if-IsStandard true e e' h h' = h
if-IsStandard false e e' h h' = h'

abbrev pub IsGood : {A : Type 0} → Result A → Type 0
IsGood (ok a) = Unit {0}
IsGood (err e) = IsStandard e

pub record Fails {A : Type 0} (m : Action A) : Type 0 where
  pub at : (w : World) → IsGood (m w).0

map_error_of-IsGood :
    {A : Type 0} (f : Error → Error) (p : Result A × World)
    → ((e : Error) → IsStandard e → IsStandard (f e))
    → IsGood p.0
    → IsGood (map_error_of f p).0
map_error_of-IsGood f (ok a, w) hf h = tt
map_error_of-IsGood f (err e, w) hf h = hf e h

module _ {A : Type 0} where
  pub Fails-pure : (a : A) → Fails (pure a)
  Fails-pure a = record { at = λ w. tt }

  pub Fails-raise : (e : Error) → IsStandard e → Fails (raise {A = A} e)
  Fails-raise e h = record { at = λ w. h }

  pub Fails-gets : (f : World → A) → Fails (gets f)
  Fails-gets f = record { at = λ w. tt }

  pub Fails-or_raise : (o : Option A) (e : Error) → IsStandard e → Fails (or_raise o e)
  Fails-or_raise none e h = record { at = λ w. h }
  Fails-or_raise (some a) e h = record { at = λ w. tt }

  pub Fails-map_error :
      (f : Error → Error) (m : Action A)
      → ((e : Error) → IsStandard e → IsStandard (f e))
      → Fails m
      → Fails (map_error f m)
  Fails-map_error f m hf h = record { at = λ w. map_error_of-IsGood f (m w) hf (h.at w) }

  wrapped-IsGood : (text : String) (p : Result A × World) → IsGood (map_error_of (wrapped text) p).0
  wrapped-IsGood text (ok a, w) = tt
  wrapped-IsGood text (err e, w) = wrapped-IsStandard text e

  -- An error of any kind, wrapped.
  pub Fails-wrap : (text : String) (m : Action A) → Fails (wrap text m)
  Fails-wrap text m = record { at = λ w. wrapped-IsGood text (m w) }

  pub Fails-attempt : (m : Action A) → Fails (attempt m)
  Fails-attempt m = record { at = λ w. tt }

  pub Fails-ignore : (m : Action A) → Fails (ignore m)
  Fails-ignore m = record { at = λ w. tt }

  pub Fails-if :
      (test : Bool) (taken other : Action A)
      → Fails taken
      → Fails other
      → Fails (if test then taken else other)
  Fails-if true taken other h h' = h
  Fails-if false taken other h h' = h'

  query_by-IsGood :
      (failed : Bool) (w : World) (m : Action A)
      → Fails m
      → IsGood (if failed then (err (plain "database error"), w) else m w).0
  query_by-IsGood true w m h = plain-IsStandard "database error"
  query_by-IsGood false w m h = h.at w

  pub Fails-query : (env : Env) (s : Statement) (m : Action A) → Fails m → Fails (query env s m)
  Fails-query env s m h = record { at = λ w. query_by-IsGood (env.fails s w) w m h }

  pub Fails-bind_body : (b : Bound A) → Fails (bind b)
  Fails-bind_body (bound a) = record { at = λ w. tt }
  Fails-bind_body (unbound message) = record { at = λ w. bad_request-IsStandard message }

pub Fails-modify : (f : World → World) → Fails (modify f)
Fails-modify f = record { at = λ w. tt }

raise_if-IsGood : (c : Bool) (e : Error) → IsStandard e → IsGood (if c then err e else ok (tt {0}))
raise_if-IsGood true e h = h
raise_if-IsGood false e h = tt

pub Fails-raise_if : (c : Bool) (e : Error) → IsStandard e → Fails (raise_if c e)
Fails-raise_if c e h = record { at = λ w. raise_if-IsGood c e h }

module _ {A B : Type 0} where
  bind_of-IsGood :
      (p : Result A × World) (f : A → Action B)
      → ((a : A) → Fails (f a))
      → IsGood p.0
      → IsGood (bind_of f p).0
  bind_of-IsGood (ok a, w) f hf h = (hf a).at w
  bind_of-IsGood (err e, w) f hf h = h

  pub Fails-bind :
      (m : Action A) (f : A → Action B) → Fails m → ((a : A) → Fails (f a)) → Fails (m >>= f)
  Fails-bind m f h hf = record { at = λ w. bind_of-IsGood (m w) f hf (h.at w) }

pub ruleset fails_rules = (
  sentinel-IsStandard, bad_request-IsStandard, unauthorized-IsStandard, conflict-IsStandard,
  wrapped-IsStandard, plain-IsStandard, no_rows-IsStandard, if-IsStandard, Fails-pure, Fails-raise,
  Fails-gets, Fails-or_raise, Fails-wrap, Fails-map_error, Fails-attempt, Fails-ignore, Fails-if,
  Fails-query, Fails-bind_body, Fails-modify, Fails-raise_if, Fails-bind,
)
