-- ===== src/Http/Auth.antt =====
-- internal/api/middleware/auth.go, and `extractSetupToken` of internal/api/handlers/auth_handler.go.
use go_with_me.Base.{String, ◌&&◌, not, Option, none, some, ◌=ₛ◌, [], if◌then◌else◌}
use go_with_me.Base.Text.{cut_space, drop_prefix, trim_space, equal_fold}
use go_with_me.Claims.{Claims, purpose_session, purpose_mfa}
use go_with_me.World.{Env}
use go_with_me.Token.{parse_at}
use go_with_me.Http.{HttpRequest, Identity, Handler, Response, failure}

-- The token of the parts of an `Authorization` header.
abbrev pub bearer_of : Option (String × String) → String
bearer_of none = ""
bearer_of (some (scheme, token)) = if equal_fold scheme "bearer" then trim_space token else ""

unfoldable pub extract_bearer : HttpRequest → String
unfolding equal_fold
extract_bearer r = bearer_of (cut_space (r.header "Authorization"))

abbrev pub or_empty : Option String → String
or_empty none = ""
or_empty (some token) = token

-- `extractSetupToken`: the prefix is "Bearer " to the letter.
unfoldable pub extract_setup_token : HttpRequest → String
extract_setup_token r = or_empty (drop_prefix "Bearer " (r.header "Authorization"))

abbrev pub unauthorized_response : String → Response
unauthorized_response message = failure 401 "UNAUTHORIZED" message []

abbrev pub identity_of : Claims → Identity
identity_of c = record {
  user_id = c.user_id;
  user_email = c.email;
  user_role = c.role;
  user_permissions = c.permissions;
}

-- `requirePurpose` after the token is parsed.
abbrev pub admit : String → Option Claims → Handler → Handler
admit expected none next r i w = (unauthorized_response "invalid or expired token", w)
admit expected (some c) next r i w =
    if not (c.purpose =ₛ expected)
    then (unauthorized_response "token not valid for this endpoint", w)
    else if expected =ₛ purpose_session && c.role =ₛ ""
    then (unauthorized_response "invalid token claims", w)
    else next r (identity_of c) w

module _ (env : Env) where
  unfoldable pub require_purpose : String → String → Handler → Handler
  unfolding extract_bearer
  require_purpose secret expected next r i w =
      if extract_bearer r =ₛ ""
      then (unauthorized_response "missing authorization token", w)
      else admit expected (parse_at env w.now (extract_bearer r) secret) next r i w

  abbrev pub require_auth : String → Handler → Handler
  require_auth secret = require_purpose secret purpose_session

  abbrev pub require_mfa : String → Handler → Handler
  require_mfa secret = require_purpose secret purpose_mfa
