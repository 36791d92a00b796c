-- ===== src/Http/UserHandler/Unvalidated.antt =====
-- A listing of users by a role that is none.
use go_with_me.Base.{String, false, some, ◌≡◌, ◌=ₛ◌, arith}
use go_with_me.ApiError.{sentinel_value, internal_server}
use go_with_me.Config.{Config}
use go_with_me.Models.Roles.{is_role}
use go_with_me.World.{World, Env, IsUp, count_users}
use go_with_me.Repository.Users.Listing
use go_with_me.Repository.Users.Listing.{Ilike}
use go_with_me.Http.{HttpRequest, Identity}
use go_with_me.Http.Answers.{fail, fail_with}
use go_with_me.Http.Body.{Gin}
use go_with_me.Http.UserHandler

-- A request for the users of a role that there is not is answered as an internal error, not as a bad
-- request: the query parameter goes to the database as it is.
pub bad_role_internal :
    (env : Env) (gin : Gin) (cfg : Config) (ilike : Ilike) (r : HttpRequest) (i : Identity)
    (w : World) (role : String)
    → IsUp env
    → r.query "role" ≡ some role
    → (role =ₛ "") ≡ false
    → is_role role ≡ false
    → UserHandler.list env gin cfg ilike r i w ≡ (fail_with (sentinel_value internal_server), w)
unfolding UserHandler.list Listing.list fail
bad_role_internal env gin cfg ilike r i w role up asked filled unknown =
    ground (arith, up count_users w)
