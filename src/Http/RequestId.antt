-- ===== src/Http/RequestId.antt =====
-- internal/api/middleware/request_id.go; the header of the response is left out.
use go_with_me.Base.{String, ◌=ₛ◌, if◌then◌else◌}
use go_with_me.World.{World, Env}
use go_with_me.Http.{HttpRequest, Identity}

-- The request's own id, or a new one.
abbrev pub id_or_new : Env → World → String → String
id_or_new env w id = if id =ₛ "" then env.uuid_text (env.new_id w) else id

abbrev pub identified : Env → World → HttpRequest → HttpRequest
identified env w r = record r { request_id = id_or_new env w (r.header "X-Request-ID") }

abbrev pub request_id :
    {A : Type 0} → Env → (HttpRequest → Identity → World → A) → HttpRequest → Identity → World → A
request_id env next r i w = next (identified env w r) i w
