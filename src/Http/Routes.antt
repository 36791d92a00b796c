-- ===== src/Http/Routes.antt =====
-- internal/api/routes/routes.go: each route with its middleware, in the order in which they run. The
-- request log and the recovery from a panic, which are around all of them, are in Http.Panics.
use go_with_me.Base.{String, ℕ, [], ◌∷◌}
use go_with_me.Config.{Config}
use go_with_me.Claims.{purpose_totp_setup, purpose_password_reset}
use go_with_me.Models.Roles.{role_super_admin, role_admin, role_manager}
use go_with_me.World.{World, Env}
use go_with_me.Repository.Users.Listing.{Ilike}
use go_with_me.Services.Auth.{AuthService, wired_auth_service}
use go_with_me.Http.{HttpRequest, Handler, Response, nobody, empty}
use go_with_me.Http.Answers.{ok_response}
use go_with_me.Http.Auth.{require_purpose, require_auth, require_mfa}
use go_with_me.Http.Roles.{require_role}
use go_with_me.Http.Audit.{audit}
use go_with_me.Http.RequestId.{request_id}
use go_with_me.Http.RateLimit.{Redis, rate_limit}
use go_with_me.Http.Body.{Gin}
use go_with_me.Http.AuthHandler
use go_with_me.Http.UserHandler

pub data Route : Type 0 where
  health ready login forgot_password verify_reset_email accept_invite : Route
  verify_totp setup_totp confirm_totp complete_password_reset me : Route
  list_users get_user update_user invite_user deactivate_user : Route

-- What the routes are set up with.
pub record Server : Type 0 where
  pub env : Env
  pub gin : Gin
  pub redis : Redis
  pub ilike : Ilike
  pub encode : HttpRequest → ℕ → String
  pub cfg : Config

module _ (s : Server) where
  abbrev service : AuthService
  service = wired_auth_service s.cfg

  abbrev limited : String → ℕ → Handler → Handler
  limited = rate_limit s.redis

  abbrev with_session : Handler → Handler
  with_session = require_auth s.env s.cfg.app_secret

  abbrev with_purpose : String → Handler → Handler
  with_purpose = require_purpose s.env s.cfg.app_secret

  abbrev audited : String → Handler → Handler
  audited action = audit s.env s.encode action "users"

  abbrev pub endpoint : Route → Handler
  endpoint health r i w = (ok_response empty, w)
  endpoint ready r i w = (ok_response empty, w)
  endpoint login r i w = limited "auth:login" 30 (AuthHandler.login s.env s.gin service) r i w
  endpoint forgot_password r i w =
      limited "auth:forgot-password" 10 (AuthHandler.forgot_password s.env s.gin service) r i w
  endpoint verify_reset_email r i w =
      limited "auth:verify-reset-email" 10 (AuthHandler.verify_reset_email s.env s.gin service) r i
        w
  endpoint accept_invite r i w =
      limited "auth:accept-invite" 20 (AuthHandler.accept_invite s.env s.gin service) r i w
  endpoint verify_totp r i w =
      require_mfa s.env s.cfg.app_secret (AuthHandler.verify_totp s.env s.gin service) r i w
  endpoint setup_totp r i w =
      with_purpose purpose_totp_setup (AuthHandler.setup_totp s.env s.gin service) r i w
  endpoint confirm_totp r i w =
      with_purpose purpose_totp_setup (AuthHandler.confirm_totp s.env s.gin service) r i w
  endpoint complete_password_reset r i w =
      with_purpose purpose_password_reset (AuthHandler.complete_password_reset s.env s.gin service)
        r i w
  endpoint me r i w = with_session (AuthHandler.me s.env s.gin service) r i w
  endpoint list_users r i w =
      with_session
        (require_role (role_admin ∷ role_super_admin ∷ [])
          (limited "api:users:list" 100 (UserHandler.list s.env s.gin s.cfg s.ilike)))
        r i w
  endpoint get_user r i w =
      with_session
        (require_role (role_super_admin ∷ role_admin ∷ role_manager ∷ [])
          (UserHandler.get s.env s.gin s.cfg))
        r i w
  endpoint update_user r i w =
      with_session
        (require_role (role_admin ∷ role_super_admin ∷ []) (UserHandler.update s.env s.gin s.cfg)) r
        i w
  endpoint invite_user r i w =
      with_session
        (require_role (role_admin ∷ role_super_admin ∷ []) (
          limited "api:users:invite" 20
            (audited "user.invite" (UserHandler.invite s.env s.gin s.cfg))))
        r i w
  endpoint deactivate_user r i w =
      with_session
        (require_role (role_super_admin ∷ [])
          (audited "user.deactivate" (UserHandler.deactivate s.env s.gin s.cfg)))
        r i w

  -- A request is served under its id, with no identity in its context.
  unfoldable pub handle : Route → HttpRequest → World → Response × World
  handle route r w = request_id s.env (endpoint route) r nobody w
