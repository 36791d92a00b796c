-- ===== src/Http/Roles.antt =====
-- internal/api/middleware/require_role.go.
use Prim.Native.String.{◌++◌ as text_append}
use go_with_me.Base.{
  String, Bool, not, Option, none, some, List, [], any, find?, ◌=ₛ◌, if◌then◌else◌,
}
use go_with_me.Http.{Handler, Response, failure}

abbrev pub forbidden_response : String → Response
forbidden_response message = failure 403 "FORBIDDEN" message []

unfoldable pub require_role : List String → Handler → Handler
require_role roles next r i w =
    if any (λ role. role =ₛ i.user_role) roles
    then next r i w
    else (forbidden_response "insufficient role for this action", w)

abbrev pub holds : List String → String → Bool
holds perms perm = any (λ p. p =ₛ perm) perms

-- The answer for the first permission that is missing, if one is.
abbrev pub require_all : Option String → Handler → Handler
require_all none next r i w = next r i w
require_all (some missing) next r i w =
    (forbidden_response (text_append "missing required permission: " missing), w)

unfoldable pub require_permission : List String → Handler → Handler
require_permission perms next r i =
    if holds i.user_permissions "*"
    then next r i
    else require_all (find? (λ p. not (holds i.user_permissions p)) perms) next r i
