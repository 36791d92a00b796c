-- ===== src/Tests/Limits.antt =====
-- The rate limit over a server that holds one counter, and a listing of the audit log.
use go_with_me.Base.{ℕ, suc, ◌+◌, String, true, false, none, some, [], ◌∷◌, ◌≡◌, refl, arith}
use go_with_me.Models.{AuditLog}
use go_with_me.World.{World, IsUp}
use go_with_me.Pagination.{offset}
use go_with_me.Repository.Audit.{ListAuditParams}
use go_with_me.Http.RateLimit.Window.{
  RedisServer, Entry, value, expiry_of, with_expiry, IsRedis, decisions, store_after,
}
use go_with_me.Http.RateLimit.Quota.{check_rate_limit_lem, lost_expiry}
use go_with_me.Tests.{town, libraries}

abbrev redis : RedisServer Entry
redis = record {
  incr = λ now key e. (some (suc (value now e)), some (suc (value now e), expiry_of now e));
  expire = λ now key window e. (true, with_expiry (now + window) e);
}

-- EXPIRE is lost.
abbrev forgetful : RedisServer Entry
forgetful = record redis { expire = λ now key window e. (false, e) }

abbrev entry : Entry → String → Entry
entry e key = e

redis-IsRedis : IsRedis redis entry
redis-IsRedis = record {
  incr = λ now key e. refl;
  after_incr = λ now key e. refl;
  after_expire = λ now key window e. refl;
}

forgetful-IsRedis : IsRedis forgetful entry
forgetful-IsRedis = record {
  incr = λ now key e. refl;
  after_incr = λ now key e. refl;
  after_expire = λ now key window e. refl;
}

-- Of four logins within a minute two are let through.
check_rate_limit_lem_example :
    (decisions redis "rate:auth:login:10.0.0.1" 2 60 (100 ∷ 110 ∷ 110 ∷ 159 ∷ []) none
      ≡ true ∷ true ∷ false ∷ false ∷ [])
    × (value 160
          (store_after redis "rate:auth:login:10.0.0.1" 2 60 (100 ∷ 110 ∷ 110 ∷ 159 ∷ []) none)
        ≡ 0)
check_rate_limit_lem_example =
    check_rate_limit_lem redis entry redis-IsRedis "rate:auth:login:10.0.0.1" 2 60 100
      (110 ∷ 110 ∷ 159 ∷ []) none 160 refl refl (omega arith) (omega arith)

-- A login a year later is refused.
lost_expiry_example :
    decisions forgetful "rate:auth:login:10.0.0.1" 2 60 (100 ∷ 110 ∷ 31_536_100 ∷ []) none
    ≡ true ∷ true ∷ false ∷ []
lost_expiry_example =
    lost_expiry forgetful entry forgetful-IsRedis "rate:auth:login:10.0.0.1" 2 60 100
      (110 ∷ 31_536_100 ∷ []) none refl refl

abbrev log_of : ℕ → AuditLog
log_of id = record {
  id = id;
  user_id = some 1;
  action = "user.invite";
  resource = "users";
  resource_id = none;
  ip_address = "10.0.0.1";
  user_agent = "curl";
  metadata = "{}";
  created_at = id;
}

abbrev audited : World
audited = record town { audit = log_of 2 ∷ log_of 1 ∷ [] }

abbrev of_alice : ListAuditParams
of_alice = record {
  user_id = some 1;
  resource = some "users";
  params = record { page = 1; page_size = 1 };
}

up : IsUp libraries
up s w = refl

first_row : offset of_alice.params ≡ 0
unfolding offset
first_row = refl
