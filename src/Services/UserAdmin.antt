-- ===== src/Services/UserAdmin.antt =====
-- internal/services/user_service.go.
use go_with_me.Base.{
  ℕ, ◌*◌, ◌^◌, String, Bool, false, ◌&&◌, not, Option, none, some, leb, ◌=ₛ◌, if◌then◌else◌,
}
use go_with_me.Base.Text.{trim_space}
use go_with_me.ApiError.{Error, plain, wrapped, is_not_found, bad_request_error, conflict_error}
use go_with_me.Models.{User, UserRole}
use go_with_me.Models.Roles.{role_super_admin}
use go_with_me.Config.{Config}
use go_with_me.Claims.{purpose_invite}
use go_with_me.World.{Env, hour}
use go_with_me.Action.{
  Action, Result, ok, err, raise, gets, or_raise, wrap, attempt, raise_if, done, ◌>>=◌, ◌>>◌,
}
use go_with_me.Token.{issue_purpose_token}
use go_with_me.Repository.Users
use go_with_me.Repository.Users.{CreateUserParams, UpdateUserParams, normal_email}

-- `params.Role != nil && *params.Role != RoleSuperAdmin && current.Role == RoleSuperAdmin`
abbrev pub demotes : Option UserRole → User → Bool
demotes none current = false
demotes (some role) current = not (role =ₛ role_super_admin) && current.role =ₛ role_super_admin

abbrev pub no_super_admin : Error
no_super_admin = bad_request_error "cannot invite a super_admin — promote an existing user instead"

abbrev pub email_required : Error
email_required = bad_request_error "email is required"

-- A found user is a conflict, and an error other than "not found" is passed on.
abbrev pub refuse_existing : Result User → Action (Unit {0})
refuse_existing (ok _) = raise (conflict_error "a user with this email already exists")
refuse_existing (err e) = if is_not_found e then done else raise e

module _ (env : Env) where
  unfoldable pub get : ℕ → Action User
  get id = Users.find_by_id env id

  -- Refuses where one active super admin is left at most.
  abbrev pub require_two_admins : String → Action (Unit {0})
  require_two_admins message = do
    admins ← wrap "count super admins" (Users.count_super_admins env)
    raise_if (leb admins 1) (bad_request_error message)

  unfoldable pub require_unused : String → Action (Unit {0})
  require_unused email = do
    found ← attempt (Users.find_by_email env (normal_email email))
    refuse_existing found

  -- `update` and `deactivate` for the user that was found.
  abbrev pub update_current : ℕ → UpdateUserParams → User → Action User
  update_current id params current = do
    if demotes params.role current
        then require_two_admins "cannot change role of the last super admin"
        else done
    Users.update env id params

  abbrev pub deactivate_current : ℕ → User → Action (Unit {0})
  deactivate_current id u = do
    if u.role =ₛ role_super_admin
        then require_two_admins "cannot deactivate the last super admin"
        else done
    Users.deactivate env id

  unfoldable pub update : ℕ → UpdateUserParams → Action User
  update id params = do current ← Users.find_by_id env id; update_current id params current

  unfoldable pub deactivate : ℕ → Action (Unit {0})
  deactivate id = do u ← Users.find_by_id env id; deactivate_current id u

abbrev pub invited_params : String → String → UserRole → CreateUserParams
invited_params email name role = record {
  email = normal_email email;
  name = trim_space name;
  password_hash = "!";
  role = role;
}

module _ (env : Env) (cfg : Config) where
  -- The created user is deactivated at once, and the token is made for its id. The 32 random bytes
  -- of the source are drawn and not used.
  unfoldable pub issue_invite : User → Action String
  issue_invite u = do
    wrap "deactivate invited user" (Users.deactivate env u.id)
    raw ← gets (λ w. env.random_below w (2 ^ 256))
    or_raise raw (wrapped "generate invite token" (plain "rand"))
    wrap "sign invite token" (
        issue_purpose_token env cfg.app_secret u.id u.email purpose_invite
          (cfg.invite_ttl_hours * hour))

  unfoldable pub invite_new : String → String → UserRole → Action String
  invite_new email name role = do
    u ← wrap "create invited user" (Users.create env (invited_params email name role))
    issue_invite u

  -- `invite` after the test of the role.
  abbrev pub invite_member : String → String → UserRole → Action String
  invite_member email name role = do
    raise_if (normal_email email =ₛ "") email_required
    require_unused env email
    invite_new email name role

  unfoldable pub invite : String → String → UserRole → Action String
  invite email name role = do
    raise_if (role =ₛ role_super_admin) no_super_admin
    invite_member email name role
