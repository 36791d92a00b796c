-- ===== src/Http/UserHandler.antt =====
-- internal/api/handlers/user_handler.go.
pub mod Unvalidated
use go_with_me.Base.{ℕ, String, Option, none, some, List, map, ◌=ₛ◌, if◌then◌else◌}
use go_with_me.ApiError.{bad_request_error}
use go_with_me.Config.{Config}
use go_with_me.Models.{User}
use go_with_me.World.{Env}
use go_with_me.Action.{Action, or_raise, ◌>>=◌}
use go_with_me.Repository.Users.Listing
use go_with_me.Repository.Users.Listing.{Ilike, ListUsersParams}
use go_with_me.Pagination.{parse_params, new_meta}
use go_with_me.Services.UserAdmin
use go_with_me.Http.{HttpRequest, Handler, Response, UserResponse, user, users, invite_token}
use go_with_me.Http.Answers.{respond, ok_response, created, no_content}
use go_with_me.Http.Body.{Gin, bind}

module _ (env : Env) where
  unfoldable pub map_user : User → UserResponse
  map_user u = record {
    id = env.uuid_text u.id;
    email = u.email;
    name = u.name;
    role = u.role;
    totp_enabled = u.totp_enabled;
    is_active = u.is_active;
    created_at = u.created_at;
    updated_at = u.updated_at;
  }

  unfoldable pub map_users : List User → List UserResponse
  unfolding map_user
  map_users = map map_user

module _ (env : Env) (gin : Gin) (cfg : Config) where
  -- `uuid.Parse(c.Param("id"))`
  abbrev pub id_of : HttpRequest → Action ℕ
  id_of r = or_raise (gin.parse_uuid (r.param "id")) (bad_request_error "invalid user ID")

  -- `c.Query(name)`, where it is not empty.
  abbrev pub filled : Option String → Option String
  filled none = none
  filled (some text) = if text =ₛ "" then none else some text

  abbrev pub listing_params : HttpRequest → ListUsersParams
  listing_params r = record {
    role = filled (r.query "role");
    search = filled (r.query "search");
    params = parse_params r;
  }

  abbrev pub list_answer : HttpRequest → List User × ℕ → Response
  list_answer r (us, total) =
      ok_response (users (map_users env us) (new_meta (parse_params r) total))

  unfoldable pub list : Ilike → Handler
  unfolding map_users parse_params new_meta
  list ilike r i = respond (Listing.list env ilike (listing_params r)) (list_answer r)

  abbrev pub user_answer : User → Response
  user_answer u = ok_response (user (map_user env u))

  abbrev pub get_call : HttpRequest → Action User
  get_call r = do id ← id_of r; UserAdmin.get env id

  unfoldable pub get : Handler
  unfolding map_user
  get r i = respond (get_call r) user_answer

  abbrev pub update_call : HttpRequest → Action User
  update_call r = do
    id ← id_of r
    req ← bind (gin.bind_update_user r)
    UserAdmin.update env id (record { name = req.name; role = req.role })

  unfoldable pub update : Handler
  unfolding map_user
  update r i = respond (update_call r) user_answer

  abbrev pub invite_call : HttpRequest → Action String
  invite_call r = do
    req ← bind (gin.bind_invite r)
    UserAdmin.invite env cfg req.email req.name req.role

  abbrev pub invite_answer : String → Response
  invite_answer token = created (invite_token token)

  unfoldable pub invite : Handler
  invite r i = respond (invite_call r) invite_answer

  abbrev pub deactivate_call : HttpRequest → Action (Unit {0})
  deactivate_call r = do id ← id_of r; UserAdmin.deactivate env id

  abbrev pub deactivate_answer : Unit {0} → Response
  deactivate_answer _ = no_content

  unfoldable pub deactivate : Handler
  deactivate r i = respond (deactivate_call r) deactivate_answer
