-- ===== src/Services/Auth/Totp.antt =====
-- `AuthService.VerifyTOTP`, `SetupTOTP` and `ConfirmTOTP`.
use go_with_me.Base.{String, Bool, true, false, not, Option, none, some}
use go_with_me.Base.Text.{trim_space}
use go_with_me.ApiError.{
  sentinel, unauthorized, plain, wrapped, bad_request_error, unauthorized_error,
}
use go_with_me.Models.{User}
use go_with_me.Claims.{purpose_mfa, purpose_totp_setup}
use go_with_me.World.{World, Env}
use go_with_me.Action.{Action, gets, or_raise, wrap, raise_if, ◌>>=◌, ◌>>◌}
use go_with_me.Repository.Users
use go_with_me.Services.Auth.{AuthService, LoginResult, token_user, issue_session}

module _ (env : Env) (s : AuthService) where
  -- `secret != nil && totp.Validate(strings.TrimSpace(code), *secret)`
  abbrev pub code_fits : World → String → Option String → Bool
  code_fits w code none = false
  code_fits w code (some secret) = env.validate_totp w.now (trim_space code) secret

  -- `VerifyTOTP` and `ConfirmTOTP` for the user that the token names.
  abbrev pub verify_found : String → User → Action LoginResult
  verify_found code u = do
    raise_if (not u.is_active) (sentinel unauthorized)
    fits ← gets (λ w. code_fits w code u.totp_secret)
    raise_if (not fits) (unauthorized_error "invalid authenticator code")
    issue_session env s u

  abbrev pub confirm_found : String → String → User → Action LoginResult
  confirm_found secret code u = do
    raise_if (not u.is_active) (sentinel unauthorized)
    fits ← gets (λ w. code_fits w code (some secret))
    raise_if (not fits) (bad_request_error "invalid authenticator code")
    wrap "persist totp secret" (Users.set_totp env u.id secret true)
    u' ← Users.find_by_id env u.id
    issue_session env s u'

  unfoldable pub verify_totp : String → String → Action LoginResult
  unfolding token_user
  verify_totp mfa_token code = do u ← token_user env s mfa_token purpose_mfa; verify_found code u

  -- The secret and its URL. Nothing is stored.
  unfoldable pub setup_totp : String → Action (String × String)
  unfolding token_user
  setup_totp setup_token = do
    u ← token_user env s setup_token purpose_totp_setup
    key ← gets (λ w. env.generate_totp w "go-with-me" u.email)
    or_raise key (wrapped "generate totp key" (plain "totp"))

  unfoldable pub confirm_totp : String → String → String → Action LoginResult
  unfolding token_user
  confirm_totp setup_token secret code = do
    u ← token_user env s setup_token purpose_totp_setup
    confirm_found secret code u
