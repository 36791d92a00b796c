-- ===== src/Http/RateLimit.antt =====
-- internal/api/middleware/rate_limit.go. Redis is a parameter: the reply to INCR, none where it is
-- down. The headers of the limit are left out.
pub mod Window
pub mod Quota
use Prim.Native.String.{◌++◌ as text_append}
use go_with_me.Base.{ℕ, ◌-◌, String, Bool, Option, none, some, [], ◌=ₛ◌, leb, if◌then◌else◌}
use go_with_me.World.{World}
use go_with_me.Http.{Handler, Response, failure}

abbrev pub Redis : Type 0
Redis = String → World → Option ℕ

abbrev pub namespace_or_default : String → String
namespace_or_default namespace = if namespace =ₛ "" then "default" else namespace

-- `fmt.Sprintf("rate:%s:%s", namespace, subject)`
abbrev pub rate_key : String → String → String
rate_key namespace subject =
    text_append "rate:" (text_append (namespace_or_default namespace) (text_append ":" subject))

-- `checkRateLimit` after INCR: what remains, and whether the request is allowed.
unfoldable pub check_rate_limit : ℕ → ℕ → ℕ × Bool
check_rate_limit max count = (max - count, leb count max)

abbrev pub too_many : Response
too_many = failure 429 "TOO_MANY_REQUESTS" "rate limit exceeded — please slow down" []

abbrev pub limit_by : ℕ → Option ℕ → Handler → Handler
limit_by max none next r i w = next r i w
limit_by max (some count) next r i w =
    if (check_rate_limit max count).1 then next r i w else (too_many, w)

unfoldable pub rate_limit : Redis → String → ℕ → Handler → Handler
unfolding check_rate_limit
rate_limit redis namespace max next r i w =
    limit_by max (redis (rate_key namespace r.client_ip) w) next r i w
