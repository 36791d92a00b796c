-- ===== src/Services/Auth/Reset.antt =====
-- `AuthService.ForgotPassword`, `VerifyResetEmail` and `CompletePasswordReset`, with `randomOTP6`.
pub mod Otp
pub mod Digits
pub mod Sound
pub mod Trip
pub mod AtOnce
pub mod OneToken
use Prim.Native.String.{len}
use go_with_me.Base.{
  ℕ, ◌+◌, ◌*◌, String, Bool, true, false, ◌&&◌, ◌||◌, not, Option, none, some, ◌=ₛ◌, ◌==◌, ltb,
  if◌then◌else◌,
}
use go_with_me.Base.Text.{trim_space}
use go_with_me.ApiError.{
  Error, sentinel, unauthorized, plain, wrapped, bad_request_error, unauthorized_error,
}
use go_with_me.Models.{User, PasswordReset, is_expired, is_consumed}
use go_with_me.Claims.{purpose_password_reset}
use go_with_me.World.{World, Env, minute}
use go_with_me.Action.{
  Action, Result, ok, err, pure, raise, gets, or_raise, map_error, wrap, attempt, raise_if, done,
  ◌>>=◌, ◌>>◌,
}
use go_with_me.Token.{issue_purpose_token}
use go_with_me.Repository.Users
use go_with_me.Repository.Users.{normal_email}
use go_with_me.Repository.Resets
use go_with_me.Services.Auth.{AuthService, token_user}
use go_with_me.Services.Auth.Login.{or_default}
use go_with_me.Services.Auth.Totp.{code_fits}
use Otp.{otp_text}

unfoldable pub random_otp6 : Env → Action String
random_otp6 env = do
  drawn ← gets (λ w. env.random_below w 1_000_000)
  n ← or_raise drawn (plain "rand")
  pure (otp_text n)

module _ (env : Env) (s : AuthService) where
  -- What `ForgotPassword` does for a user that it has found.
  unfoldable pub start_reset : User → Action (Unit {0})
  unfolding random_otp6
  start_reset u = if not u.is_active then done else do
    otp ← wrap "generate otp" (random_otp6 env)
    now ← gets (λ w. w.now)
    wrap "store reset record" (
        Resets.create env (record {
          user_id = u.id;
          otp_hash = env.sha256_hex otp;
          expires_at = now + s.cfg.password_reset_otp_minutes * minute;
        }))
    s.notify u.email otp

  abbrev pub start_if_found : Result User → Action (Unit {0})
  start_if_found (err _) = done
  start_if_found (ok u) = start_reset u

  unfoldable pub forgot_password : String → Action (Unit {0})
  forgot_password email = do
    found ← attempt (Users.find_by_email env (normal_email email))
    start_if_found found

  -- `VerifyResetEmail` for the reset and the user that it has found.
  abbrev pub use_reset : String → User → PasswordReset → Action String
  use_reset otp u reset = do
    now ← gets (λ w. w.now)
    raise_if (is_expired reset now || is_consumed reset)
        (unauthorized_error "OTP has expired or already been used")
    raise_if (not (env.sha256_hex (trim_space otp) =ₛ reset.otp_hash)) (sentinel unauthorized)
    wrap "consume reset record" (Resets.consume env reset.id)
    issue_purpose_token env s.cfg.app_secret u.id u.email purpose_password_reset
        (or_default (s.cfg.password_reset_jwt_minutes * minute) (30 * minute))

  abbrev pub verify_user : String → User → Action String
  verify_user otp u = do
    reset ← map_error (λ _. sentinel unauthorized) (Resets.find_by_user_id env u.id)
    use_reset otp u reset

  unfoldable pub verify_reset_email : String → String → Action String
  verify_reset_email email otp = do
    raise_if (not (len (trim_space otp) == 6)) (bad_request_error "invalid OTP code")
    u ← map_error (λ _. sentinel unauthorized) (Users.find_by_email env (normal_email email))
    verify_user otp u

  -- The code is asked for where a second factor is enrolled: `u.TOTPEnabled && u.TOTPSecret != nil`.
  abbrev pub lacks_code : World → String → Bool → Option String → Bool
  lacks_code w code true (some secret) = not (code_fits env s w code (some secret))
  lacks_code w code _ _ = false

  abbrev pub reset_found : String → String → User → Action (Unit {0})
  reset_found new_password totp_code u = do
    missing ← gets (λ w. lacks_code w totp_code u.totp_enabled u.totp_secret)
    raise_if missing (sentinel unauthorized)
    raise_if (ltb (len new_password) 10)
        (bad_request_error "password must be at least 10 characters")
    hashed ← gets (λ w. env.generate_hash w new_password)
    hash ← or_raise hashed (wrapped "hash password" (plain "bcrypt"))
    Users.update_password env u.id hash

  unfoldable pub complete_password_reset : String → String → String → Action (Unit {0})
  unfolding token_user
  complete_password_reset reset_token new_password totp_code = do
    u ← token_user env s reset_token purpose_password_reset
    reset_found new_password totp_code u
