-- ===== src/Services/Auth.antt =====
-- internal/services/auth_service.go: the service, its results, and what several flows share. Each
-- flow has a module below.
pub mod Login
pub mod Totp
pub mod Reset
pub mod Invite
pub mod Bootstrap
pub mod Profile
pub mod Guards
pub mod Session
use Prim.Native.String.{len}
use go_with_me.Base.{
  ℕ, ◌+◌, ◌*◌, String, Bool, true, false, ◌||◌, not, Option, none, some, List, [], ◌∷◌, ◌=ₛ◌, leb,
  if◌then◌else◌,
}
use go_with_me.ApiError.{Error, sentinel, unauthorized}
use go_with_me.Models.{User}
use go_with_me.Models.Roles.{role_permissions}
use go_with_me.Config.{Config}
use go_with_me.Claims.{Claims}
use go_with_me.World.{World, Env, hour}
use go_with_me.Action.{
  Action, Result, ok, err, pure, raise, gets, or_raise, map_error, wrap, modify, raise_if, done,
  ◌>>=◌, ◌>>◌,
}
use go_with_me.Repository.Users
use go_with_me.Token.{parse, issue_session_token}

-- `LoginResult`: the zero value of each field stands where a flow sets nothing.
pub record LoginResult : Type 0 where
  pub access_token : String
  pub expires_at : ℕ
  pub mfa_required : Bool
  pub mfa_token : String
  pub totp_setup_required : Bool
  pub setup_token : String

abbrev pub session_result : String → ℕ → LoginResult
session_result token expires_at = record {
  access_token = token;
  expires_at = expires_at;
  mfa_required = false;
  mfa_token = "";
  totp_setup_required = false;
  setup_token = "";
}

abbrev pub mfa_result : String → LoginResult
mfa_result token = record {
  access_token = "";
  expires_at = 0;
  mfa_required = true;
  mfa_token = token;
  totp_setup_required = false;
  setup_token = "";
}

abbrev pub setup_result : String → LoginResult
setup_result token = record {
  access_token = "";
  expires_at = 0;
  mfa_required = false;
  mfa_token = "";
  totp_setup_required = true;
  setup_token = token;
}

-- `PasswordResetNotifier`: it is given the address and the code.
abbrev pub Notifier : Type 0
Notifier = String → String → Action (Unit {0})

-- `logNotifier`: the line is written to the log.
unfoldable pub log_notifier : Notifier
log_notifier email otp = modify λ w. record w { notified = (email, otp) ∷ w.notified }

pub record AuthService : Type 0 where
  pub cfg : Config
  pub notify : Notifier

abbrev pub notifier_or_log : Option Notifier → Notifier
notifier_or_log none = log_notifier
notifier_or_log (some n) = n

unfoldable pub new_auth_service : Config → Option Notifier → AuthService
new_auth_service cfg notify = record { cfg = cfg; notify = notifier_or_log notify }

-- The service as `NewServices` wires it (internal/bootstrap/services.go).
abbrev pub wired_auth_service : Config → AuthService
wired_auth_service cfg = new_auth_service cfg none

-- `claims, err := auth.Parse(…); if err != nil || claims.Purpose != purpose { return e }`
abbrev pub with_purpose : String → Option Claims → Error → Action Claims
with_purpose purpose none e = raise e
with_purpose purpose (some c) e = if c.purpose =ₛ purpose then pure c else raise e

module _ (env : Env) (s : AuthService) where
  abbrev pub require_claims : String → String → Error → Action Claims
  require_claims text purpose e = do
    claims ← parse env text s.cfg.app_secret
    with_purpose purpose claims e

  -- The user that a token of this purpose names.
  unfoldable pub token_user : String → String → Action User
  token_user text purpose = do
    claims ← require_claims text purpose (sentinel unauthorized)
    map_error (λ _. sentinel unauthorized) (Users.find_by_id env claims.user_id)

  unfoldable pub issue_session : User → Action LoginResult
  issue_session u = do
    (token, expires_at) ← wrap "issue session token" (
        issue_session_token env s.cfg.app_secret u.id u.email u.role (role_permissions u.role)
          (s.cfg.jwt_expiry_hours * hour))
    pure (session_result token expires_at)
