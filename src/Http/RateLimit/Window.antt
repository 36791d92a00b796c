-- ===== src/Http/RateLimit/Window.antt =====
-- `checkRateLimit` of internal/api/middleware/rate_limit.go over the counters of a Redis server. The
-- server is a parameter, and `IsRedis` says what the code relies on: INCR and EXPIRE as documented.
use go_with_me.Base.{
  ℕ, zero, suc, ◌+◌, String, Bool, true, false, Option, none, some, List, [], ◌∷◌, ◌≡◌, ltb, ◌==◌,
  if◌then◌else◌,
}
use go_with_me.Http.RateLimit.{check_rate_limit}

-- INCR with its reply, none for an error, and EXPIRE with whether it is answered.
pub record RedisServer (Store : Type 0) : Type 0 where
  pub incr : ℕ → String → Store → Option ℕ × Store
  pub expire : ℕ → String → ℕ → Store → Bool × Store

-- What a server holds under a key: a number, and the time at which the key expires.
abbrev pub Entry : Type 0
Entry = Option (ℕ × Option ℕ)

abbrev pub is_before : ℕ → Option ℕ → Bool
is_before now none = true
is_before now (some t) = ltb now t

abbrev pub value : ℕ → Entry → ℕ
value now none = 0
value now (some (n, expiry)) = if is_before now expiry then n else 0

abbrev pub expiry_of : ℕ → Entry → Option ℕ
expiry_of now none = none
expiry_of now (some (n, expiry)) = if is_before now expiry then expiry else none

abbrev pub with_expiry : ℕ → Entry → Entry
with_expiry t none = none
with_expiry t (some (n, expiry)) = some (n, some t)

abbrev pub after_expire : Bool → ℕ → Entry → Entry
after_expire true t e = with_expiry t e
after_expire false t e = e

-- INCR is answered, and replies one more than the number, and keeps the time; EXPIRE sets the time, where it is answered.
pub record IsRedis {Store : Type 0} (r : RedisServer Store) (entry : Store → String → Entry)
    : Type 0 where
  pub incr :
      (now : ℕ) (key : String) (s : Store)
      → (r.incr now key s).0 ≡ some (suc (value now (entry s key)))
  pub after_incr :
      (now : ℕ) (key : String) (s : Store)
      → entry (r.incr now key s).1 key
        ≡ some (suc (value now (entry s key)), expiry_of now (entry s key))
  pub after_expire :
      (now : ℕ) (key : String) (window : ℕ) (s : Store)
      → entry (r.expire now key window s).1 key
        ≡ after_expire (r.expire now key window s).0 (now + window) (entry s key)

-- A request is let through where it is allowed, and where Redis fails.
abbrev pub lets_through : Option (ℕ × Bool) → Bool
lets_through none = true
lets_through (some (remaining, allowed)) = allowed

module _ {Store : Type 0} (r : RedisServer Store) where
  -- After the reply to INCR. An error of EXPIRE is not looked at.
  abbrev pub counted : ℕ → String → ℕ → ℕ → Option ℕ → Store → Option (ℕ × Bool) × Store
  counted now key max window none s = (none, s)
  counted now key max window (some count) s =
      (some (check_rate_limit max count), if count == 1 then (r.expire now key window s).1 else s)

  -- `checkRateLimit`: what remains, and whether the request is allowed; none for an error.
  unfoldable pub check : ℕ → String → ℕ → ℕ → Store → Option (ℕ × Bool) × Store
  check now key max window s = counted now key max window (r.incr now key s).0 (r.incr now key s).1

  -- The answers to requests at these times, under one key.
  abbrev pub decisions : String → ℕ → ℕ → List ℕ → Store → List Bool
  decisions key max window [] s = []
  decisions key max window (now ∷ times) s =
      lets_through (check now key max window s).0
      ∷ decisions key max window times (check now key max window s).1

  -- The server after them.
  abbrev pub store_after : String → ℕ → ℕ → List ℕ → Store → Store
  store_after key max window [] s = s
  store_after key max window (now ∷ times) s =
      store_after key max window times (check now key max window s).1

-- What a fixed window promises: a budget, and every request while it lasts.
abbrev pub quota : ℕ → ℕ → List Bool
quota max zero = []
quota zero (suc n) = false ∷ quota zero n
quota (suc max) (suc n) = true ∷ quota max n
