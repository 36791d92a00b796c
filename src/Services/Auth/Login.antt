-- ===== src/Services/Auth/Login.antt =====
-- `AuthService.Login`.
pub mod Sound
pub mod Lockout
pub mod Refusals
pub mod AtOnce
pub mod Tally
pub mod Crowd
pub mod Alone
pub mod Replica
use go_with_me.Base.{
  ℕ, ◌+◌, ◌*◌, String, Bool, true, false, ◌&&◌, not, Option, none, some, ◌=ₛ◌, ◌==◌, leb,
  if◌then◌else◌,
}
use go_with_me.Base.Text.{trim_space}
use go_with_me.ApiError.{Error, sentinel, unauthorized, is_not_found, bad_request_error}
use go_with_me.Models.{User, is_locked}
use go_with_me.Claims.{purpose_totp_setup}
use go_with_me.World.{World, Env, minute, hour}
use go_with_me.Action.{
  Action, Result, ok, err, pure, raise, gets, map_error, wrap, ignore, attempt, raise_if, done,
  ◌>>=◌, ◌>>◌,
}
use go_with_me.Token.{issue_mfa_token, issue_purpose_token}
use go_with_me.Repository.Users
use go_with_me.Services.Auth.{AuthService, LoginResult, mfa_result, setup_result}

abbrev pub account_locked : Error
account_locked = bad_request_error "account is locked due to too many failed attempts"

-- An unknown address answers as a wrong password does.
abbrev pub hide_not_found : Error → Error
hide_not_found e = if is_not_found e then sentinel unauthorized else e

-- `u.TOTPSecret != nil && *u.TOTPSecret != ""`
abbrev pub has_secret : Option String → Bool
has_secret none = false
has_secret (some secret) = not (secret =ₛ "")

abbrev pub is_enrolled : User → Bool
is_enrolled u = u.totp_enabled && has_secret u.totp_secret

-- `ttl` where it is positive, the default otherwise.
abbrev pub or_default : ℕ → ℕ → ℕ
or_default ttl default = if ttl == 0 then default else ttl

module _ (env : Env) (s : AuthService) where
  -- The reread user has reached the limit: `gerr == nil && u2.FailedAttempts >= MaxFailedAttempts`.
  abbrev pub reached_limit : Result User → Bool
  reached_limit (err _) = false
  reached_limit (ok u) = leb s.cfg.max_failed_attempts u.failed_attempts

  -- The branch of a wrong password.
  unfoldable pub record_failure : User → Action (Unit {0})
  record_failure u = do
    ignore (Users.incr_failed_attempts env u.id)
    reread ← attempt (Users.find_by_id env u.id)
    now ← gets (λ w. w.now)
    if reached_limit reread then ignore (Users.lock_until env u.id (now + 30 * minute)) else done

  -- What follows a right password: the second factor, or its enrolment.
  unfoldable pub second_factor : User → Action LoginResult
  second_factor u =
      if is_enrolled u
      then (do
        token ←
            wrap "issue mfa token"
              (issue_mfa_token env s.cfg.app_secret u.id (s.cfg.mfa_expiry_minutes * minute))
        pure (mfa_result token))
      else do
        token ← wrap "issue totp setup token" (
            issue_purpose_token env s.cfg.app_secret u.id u.email purpose_totp_setup
              (or_default (s.cfg.totp_setup_expiry_minutes * minute) hour))
        pure (setup_result token)

  -- `Login` for the user that was found.
  unfoldable pub login_found : String → User → Action LoginResult
  unfolding record_failure second_factor
  login_found password u = do
    raise_if (not u.is_active) (sentinel unauthorized)
    now ← gets (λ w. w.now)
    raise_if (is_locked u now) account_locked
    if env.compare_hash u.password_hash password
        then (do ignore (Users.clear_lock env u.id); second_factor u)
        else (do record_failure u; raise (sentinel unauthorized))

  unfoldable pub login : String → String → Action LoginResult
  unfolding login_found
  login email password = do
    u ← map_error hide_not_found (Users.find_by_email env (trim_space email))
    login_found password u
