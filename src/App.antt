-- ===== src/App.antt =====
-- The application as its callers see it: each request is one call of a service, as the handlers of
-- internal/api/handlers make it, or the scheduled clean-up of internal/bootstrap/app.go. Between
-- two requests the clock may move.
pub mod Refines
pub mod Table
pub mod Valid
pub mod Admins
pub mod Race
pub mod Access
pub mod Invited
pub mod FirstAdmin
use go_with_me.Base.{ℕ, ◌+◌, String, Option, none, some, List, [], ◌∷◌}
use go_with_me.Models.{UserRole}
use go_with_me.Config.{Config}
use go_with_me.World.{World, Env}
use go_with_me.Repository.Users.{UpdateUserParams}
use go_with_me.Repository.Resets
use go_with_me.Services.Auth.{AuthService, wired_auth_service}
use go_with_me.Services.Auth.Login
use go_with_me.Services.Auth.Totp
use go_with_me.Services.Auth.Reset
use go_with_me.Services.Auth.Invite
use go_with_me.Services.Auth.Bootstrap
use go_with_me.Services.UserAdmin

pub data Request : Type 0 where
  login : String → String → Request
  verify_totp : String → String → Request
  setup_totp : String → Request
  confirm_totp : String → String → String → Request
  forgot_password : String → Request
  verify_reset_email : String → String → Request
  complete_password_reset : String → String → String → Request
  accept_invite : String → String → String → Request
  invite : String → String → UserRole → Request
  update : ℕ → UpdateUserParams → Request
  deactivate : ℕ → Request
  bootstrap : Request
  clean_up : Request
  wait : ℕ → Request

module _ (env : Env) (cfg : Config) where
  -- The world after a request, whatever it answers.
  unfoldable pub serve : Request → World → World
  serve (login email password) w = (Login.login env (wired_auth_service cfg) email password w).1
  serve (verify_totp token code) w = (Totp.verify_totp env (wired_auth_service cfg) token code w).1
  serve (setup_totp token) w = (Totp.setup_totp env (wired_auth_service cfg) token w).1
  serve (confirm_totp token secret code) w =
      (Totp.confirm_totp env (wired_auth_service cfg) token secret code w).1
  serve (forgot_password email) w = (Reset.forgot_password env (wired_auth_service cfg) email w).1
  serve (verify_reset_email email otp) w =
      (Reset.verify_reset_email env (wired_auth_service cfg) email otp w).1
  serve (complete_password_reset token password code) w =
      (Reset.complete_password_reset env (wired_auth_service cfg) token password code w).1
  serve (accept_invite token name password) w =
      (Invite.accept_invite env (wired_auth_service cfg) token name password w).1
  serve (invite email name role) w = (UserAdmin.invite env cfg email name role w).1
  serve (update id params) w = (UserAdmin.update env id params w).1
  serve (deactivate id) w = (UserAdmin.deactivate env id w).1
  serve bootstrap w = (Bootstrap.ensure_bootstrap_admin env cfg w).1
  serve clean_up w = (Resets.delete_expired env w).1
  serve (wait time) w = record w { now = w.now + time }

  -- The world after a sequence of requests.
  unfoldable pub run : List Request → World → World
  run [] w = w
  run (r ∷ rs) w = run rs (serve r w)
