-- ===== src/Action.antt =====
-- A call: it reads and writes the world, and returns a value or a Go error. What was written before
-- an error stays written.
pub mod Rules
pub mod Keeps
use go_with_me.Base.{String, Bool, true, false, Option, none, some, if◌then◌else◌}
use go_with_me.ApiError.{Error, wrapped, plain}
use go_with_me.World.{World, Env, Statement}

pub data Result (A : Type 0) : Type 0 where
  ok : A → Result A
  err : Error → Result A

abbrev pub Action : Type 0 → Type 0
Action A = World → Result A × World

module _ {A : Type 0} where
  -- A value read off the world, a value, and an error.
  abbrev pub gets : (World → A) → Action A
  gets read w = (ok (read w), w)

  abbrev pub pure : A → Action A
  pure value w = (ok value, w)

  abbrev pub raise : Error → Action A
  raise failure w = (err failure, w)

  -- `if err != nil { return e }` on a library call.
  abbrev pub or_raise : Option A → Error → Action A
  or_raise none e = raise e
  or_raise (some a) _ = pure a

  abbrev pub map_error_of : (Error → Error) → Result A × World → Result A × World
  map_error_of f (ok a, w) = (ok a, w)
  map_error_of f (err e, w) = (err (f e), w)

  -- `if err != nil { return f(err) }`.
  abbrev pub map_error : (Error → Error) → Action A → Action A
  map_error f m w = map_error_of f (m w)

  -- `if err != nil { return fmt.Errorf("…: %w", err) }`.
  abbrev pub wrap : String → Action A → Action A
  wrap message = map_error (wrapped message)

  abbrev pub attempt_of : Result A × World → Result (Result A) × World
  attempt_of (r, w) = (ok r, w)

  -- `x, err := m`, with the error as a value.
  abbrev pub attempt : Action A → Action (Result A)
  attempt m w = attempt_of (m w)

  abbrev pub ignore_of : Result A × World → Result (Unit {0}) × World
  ignore_of (r, w) = (ok tt, w)

  -- `_ = m`.
  abbrev pub ignore : Action A → Action (Unit {0})
  ignore m w = ignore_of (m w)

  -- A statement, which the database may fail with no effect.
  abbrev pub query : Env → Statement → Action A → Action A
  query env s m w = if env.fails s w then (err (plain "database error"), w) else m w

module _ {A B : Type 0} where
  abbrev pub bind_of : (A → Action B) → Result A × World → Result B × World
  bind_of f (ok a, w) = f a w
  bind_of f (err e, w) = (err e, w)

infixl 5 ◌>>=◌ ◌>>◌
abbrev pub ◌>>=◌ : {A B : Type 0} → Action A → (A → Action B) → Action B
◌>>=◌ m f w = bind_of f (m w)

abbrev pub ◌>>◌ : {A B : Type 0} → Action A → Action B → Action B
m >> k = m >>= λ _. k

abbrev pub modify : (World → World) → Action (Unit {0})
modify f w = (ok tt, f w)

abbrev pub raise_if : Bool → Error → Action (Unit {0})
raise_if c e w = (if c then err e else ok tt, w)

abbrev pub done : Action (Unit {0})
done = pure tt
