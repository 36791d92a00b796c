-- ===== src/Action/Keeps.antt =====
-- Invariants of calls: one rule for each way to build a call. What a call keeps, it keeps on its
-- error paths too.
use go_with_me.Base.{Bool, true, false, ◌≡◌, refl, Option, some, none, if◌then◌else◌}
use go_with_me.ApiError.{Error}
use go_with_me.World.{World, Env, Statement}
use go_with_me.Action.{
  Result, ok, err, Action, pure, raise, gets, or_raise, map_error_of, map_error, attempt, ignore,
  query, bind_of, modify, raise_if, ◌>>=◌, ◌>>◌,
}

pub record Keeps {A : Type 0} (P : World → Type 0) (m : Action A) : Type 0 where
  pub at : (w : World) → P w → P (m w).1

map_error_of-world :
    {A : Type 0} (f : Error → Error) (p : Result A × World) → (map_error_of f p).1 ≡ p.1
map_error_of-world f (ok a, w) = refl
map_error_of-world f (err e, w) = refl

module _ {A : Type 0} {P : World → Type 0} where
  pub Keeps-pure : (a : A) → Keeps P (pure a)
  Keeps-pure a = record { at = λ w h. h }

  pub Keeps-raise : (e : Error) → Keeps P (raise {A = A} e)
  Keeps-raise e = record { at = λ w h. h }

  pub Keeps-gets : (f : World → A) → Keeps P (gets f)
  Keeps-gets f = record { at = λ w h. h }

  pub Keeps-or_raise : (o : Option A) (e : Error) → Keeps P (or_raise o e)
  Keeps-or_raise none e = record { at = λ w h. h }
  Keeps-or_raise (some a) e = record { at = λ w h. h }

  pub Keeps-map_error : (f : Error → Error) (m : Action A) → Keeps P m → Keeps P (map_error f m)
  Keeps-map_error f m k = record { at = λ w h. rw (map_error_of-world f (m w)) (k.at w h) }

  pub Keeps-attempt : (m : Action A) → Keeps P m → Keeps P (attempt m)
  Keeps-attempt m k = record { at = λ w h. k.at w h }

  pub Keeps-ignore : (m : Action A) → Keeps P m → Keeps P (ignore m)
  Keeps-ignore m k = record { at = λ w h. k.at w h }

  -- Each branch may use the outcome of its test.
  pub Keeps-if :
      (test : Bool) (taken other : Action A)
      → (test ≡ true → Keeps P taken)
      → (test ≡ false → Keeps P other)
      → Keeps P (if test then taken else other)
  Keeps-if true taken other when_true when_false = when_true refl
  Keeps-if false taken other when_true when_false = when_false refl

  query_by :
      (failed : Bool) (e : Error) (w : World) (m : Action A)
      → Keeps P m
      → P w
      → P (if failed then (err e, w) else m w).1
  query_by true e w m k h = h
  query_by false e w m k h = k.at w h

  pub Keeps-query : (env : Env) (s : Statement) (m : Action A) → Keeps P m → Keeps P (query env s m)
  Keeps-query env s m k = record { at = λ w h. query_by (env.fails s w) _ w m k h }

module _ {P : World → Type 0} where
  pub Keeps-modify : (f : World → World) → ((w : World) → P w → P (f w)) → Keeps P (modify f)
  Keeps-modify f k = record { at = k }

  pub Keeps-raise_if : (c : Bool) (e : Error) → Keeps P (raise_if c e)
  Keeps-raise_if c e = record { at = λ w h. h }

module _ {A B : Type 0} {P : World → Type 0} where
  bind_of-keeps :
      (p : Result A × World) (f : A → Action B)
      → ((a : A) → Keeps P (f a))
      → P p.1
      → P (bind_of f p).1
  bind_of-keeps (ok a, w) f k h = (k a).at w h
  bind_of-keeps (err e, w) f k h = h

  pub Keeps-bind :
      (m : Action A) (f : A → Action B) → Keeps P m → ((a : A) → Keeps P (f a)) → Keeps P (m >>= f)
  Keeps-bind m f km kf = record { at = λ w h. bind_of-keeps (m w) f kf (km.at w h) }

  pub Keeps-then : (m : Action A) (k : Action B) → Keeps P m → Keeps P k → Keeps P (m >> k)
  Keeps-then m k km kk = Keeps-bind m (λ _. k) km (λ _. kk)

pub ruleset keeps_rules = (
  Keeps-pure, Keeps-raise, Keeps-gets, Keeps-or_raise, Keeps-map_error, Keeps-attempt, Keeps-ignore,
  Keeps-if, Keeps-query, Keeps-raise_if, Keeps-bind,
)
