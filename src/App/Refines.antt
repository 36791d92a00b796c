-- ===== src/App/Refines.antt =====
-- The requests of `App`, as sequences of the writes of `Changes`.
use go_with_me.Config.{Config}
use go_with_me.World.{World, Env}
use go_with_me.Services.Auth.{wired_auth_service}
use go_with_me.Changes.{Write, Changes}
use go_with_me.Changes.Auth
use go_with_me.Changes.Admin
use go_with_me.Changes.Invite
use go_with_me.Changes.Resets
use go_with_me.App.{
  Request, login, verify_totp, setup_totp, confirm_totp, forgot_password, verify_reset_email,
  complete_password_reset, accept_invite, invite, update, deactivate, bootstrap, clean_up, wait,
  serve,
}

-- Every request, on its error paths too, is a sequence of allowed writes.
pub serve-Changes :
    (env : Env) (cfg : Config) (r : Request) (w : World) → Changes w (serve env cfg r w)
unfolding serve
serve-Changes env cfg (login email password) w =
    (Auth.login-Changes env (wired_auth_service cfg) email password).at w Changes.here
serve-Changes env cfg (verify_totp token code) w =
    (Auth.verify_totp-Changes env (wired_auth_service cfg) token code).at w Changes.here
serve-Changes env cfg (setup_totp token) w =
    (Auth.setup_totp-Changes env (wired_auth_service cfg) token).at w Changes.here
serve-Changes env cfg (confirm_totp token secret code) w =
    (Auth.confirm_totp-Changes env (wired_auth_service cfg) token secret code).at w Changes.here
serve-Changes env cfg (forgot_password email) w =
    (Auth.forgot_password-Changes env cfg email).at w Changes.here
serve-Changes env cfg (verify_reset_email email otp) w =
    (Auth.verify_reset_email-Changes env (wired_auth_service cfg) email otp).at w Changes.here
serve-Changes env cfg (complete_password_reset token password code) w =
    (Auth.complete_password_reset-Changes env (wired_auth_service cfg) token password code).at w
      Changes.here
serve-Changes env cfg (accept_invite token name password) w =
    (Invite.accept_invite-Changes env (wired_auth_service cfg) token name password).at w
      Changes.here
serve-Changes env cfg (invite email name role) w =
    (Invite.invite-Changes env cfg email name role).at w Changes.here
serve-Changes env cfg (update id params) w =
    (Admin.update_user-Changes env id params).at w Changes.here
serve-Changes env cfg (deactivate id) w = (Admin.deactivate_user-Changes env id).at w Changes.here
serve-Changes env cfg bootstrap w = (Auth.ensure_bootstrap_admin-Changes env cfg).at w Changes.here
serve-Changes env cfg clean_up w = (Resets.delete_expired-Changes env).at w Changes.here
serve-Changes env cfg (wait time) w = Changes.next Changes.here (Write.wait w time)
