-- ===== src/Changes/Auth.antt =====
-- The calls of the authentication service, as sequences of writes.
use go_with_me.Base.{ℕ, String, Option, some, none, ◌∷◌}
use go_with_me.ApiError.{Error}
use go_with_me.Models.{User}
use go_with_me.Config.{Config}
use go_with_me.Claims.{Claims}
use go_with_me.World.{World, Env}
use go_with_me.Action.{Result, ok, err}
use go_with_me.Action.Keeps.{Keeps, Keeps-modify, keeps_rules}
use go_with_me.Token.{parse, issue_session_token, issue_mfa_token, issue_purpose_token}
use go_with_me.Services.Auth.{
  AuthService, new_auth_service, wired_auth_service, log_notifier, with_purpose, issue_session,
}
use go_with_me.Services.Auth.Login.{login}
use go_with_me.Services.Auth.Totp.{verify_totp, setup_totp, confirm_totp}
use go_with_me.Services.Auth.Reset.{
  start_reset, start_if_found, forgot_password, verify_reset_email, complete_password_reset,
}
use go_with_me.Services.Auth.Bootstrap.{create_bootstrap_admin, ensure_bootstrap_admin}
use go_with_me.Changes.{Write, Changes}
use go_with_me.Changes.Users.{
  find_by_id-Keeps, find_by_email-Keeps, count_super_admins-Keeps, create-Changes,
  incr_failed_attempts-Changes, lock_until-Changes, clear_lock-Changes, set_totp-Changes,
  update_password-Changes,
}
use go_with_me.Changes.Resets

module _ (env : Env) {P : World → Type 0} where
  pub parse-Keeps : (text secret : String) → Keeps P (parse env text secret)
  unfolding parse
  parse-Keeps text secret = search keeps_rules

  pub issue_mfa_token-Keeps :
      (secret : String) (id ttl : ℕ) → Keeps P (issue_mfa_token env secret id ttl)
  unfolding issue_mfa_token
  issue_mfa_token-Keeps secret id ttl = search keeps_rules

  pub issue_purpose_token-Keeps :
      (secret : String) (id : ℕ) (email purpose : String) (ttl : ℕ)
      → Keeps P (issue_purpose_token env secret id email purpose ttl)
  unfolding issue_purpose_token
  issue_purpose_token-Keeps secret id email purpose ttl = search keeps_rules

  pub issue_session-Keeps : (s : AuthService) (u : User) → Keeps P (issue_session env s u)
  unfolding issue_session issue_session_token
  issue_session-Keeps s u = search keeps_rules depth 9

  pub with_purpose-Keeps :
      (purpose : String) (claims : Option Claims) (e : Error)
      → Keeps P (with_purpose purpose claims e)
  with_purpose-Keeps purpose none e = search keeps_rules
  with_purpose-Keeps purpose (some c) e = search keeps_rules

pub ruleset token_rules = (
  keeps_rules, parse-Keeps, issue_mfa_token-Keeps, issue_purpose_token-Keeps, issue_session-Keeps,
  with_purpose-Keeps, find_by_id-Keeps, find_by_email-Keeps, Resets.find_by_user_id-Keeps,
)

log_notifier-Changes :
    {w₀ : World} (email otp : String) → Keeps (Changes w₀) (log_notifier email otp)
unfolding log_notifier
log_notifier-Changes email otp =
    Keeps-modify _ (λ w h. Changes.next h (Write.set_notified w ((email, otp) ∷ w.notified)))

module _ (env : Env) (s : AuthService) {w₀ : World} where
  pub login-Changes : (email password : String) → Keeps (Changes w₀) (login env s email password)
  unfolding login
  login-Changes email password =
      search (token_rules, incr_failed_attempts-Changes, lock_until-Changes, clear_lock-Changes)
        depth 16

  pub verify_totp-Changes :
      (token code : String) → Keeps (Changes w₀) (verify_totp env s token code)
  unfolding verify_totp
  verify_totp-Changes token code = search token_rules depth 12

  pub setup_totp-Changes : (token : String) → Keeps (Changes w₀) (setup_totp env s token)
  unfolding setup_totp
  setup_totp-Changes token = search token_rules depth 12

  pub confirm_totp-Changes :
      (token secret code : String) → Keeps (Changes w₀) (confirm_totp env s token secret code)
  unfolding confirm_totp
  confirm_totp-Changes token secret code = search (token_rules, set_totp-Changes) depth 16

  pub verify_reset_email-Changes :
      (email otp : String) → Keeps (Changes w₀) (verify_reset_email env s email otp)
  unfolding verify_reset_email
  verify_reset_email-Changes email otp = search (token_rules, Resets.consume-Changes) depth 16

  pub complete_password_reset-Changes :
      (token password code : String)
      → Keeps (Changes w₀) (complete_password_reset env s token password code)
  unfolding complete_password_reset
  complete_password_reset-Changes token password code =
      search (token_rules, update_password-Changes) depth 16

module _ (env : Env) (cfg : Config) {w₀ : World} where
  -- The service as it is wired notifies by the log.
  start_reset-Changes : (u : User) → Keeps (Changes w₀) (start_reset env (wired_auth_service cfg) u)
  unfolding start_reset new_auth_service
  start_reset-Changes u = search (keeps_rules, Resets.create-Changes, log_notifier-Changes) depth 16

  start_if_found-Changes :
      (found : Result User) → Keeps (Changes w₀) (start_if_found env (wired_auth_service cfg) found)
  start_if_found-Changes (ok u) = start_reset-Changes u
  start_if_found-Changes (err e) = search keeps_rules

  pub forgot_password-Changes :
      (email : String) → Keeps (Changes w₀) (forgot_password env (wired_auth_service cfg) email)
  unfolding forgot_password
  forgot_password-Changes email =
      search (keeps_rules, find_by_email-Keeps, start_if_found-Changes) depth 9

  pub ensure_bootstrap_admin-Changes : Keeps (Changes w₀) (ensure_bootstrap_admin env cfg)
  unfolding ensure_bootstrap_admin create_bootstrap_admin
  ensure_bootstrap_admin-Changes =
      search (keeps_rules, count_super_admins-Keeps, create-Changes) depth 16
