-- ===== src/Services/Auth/Invite.antt =====
-- `AuthService.AcceptInvite`.
use Prim.Native.String.{len}
use go_with_me.Base.{◌*◌, String, none, some, ltb}
use go_with_me.Base.Text.{trim_space}
use go_with_me.ApiError.{plain, wrapped, bad_request_error, conflict_error}
use go_with_me.Claims.{purpose_invite, purpose_totp_setup}
use go_with_me.World.{Env, minute}
use go_with_me.Action.{Action, pure, gets, or_raise, map_error, raise_if, ◌>>=◌, ◌>>◌}
use go_with_me.Token.{issue_purpose_token}
use go_with_me.Repository.Users
use go_with_me.Services.Auth.{AuthService, LoginResult, setup_result, require_claims}

module _ (env : Env) (s : AuthService) where
  unfoldable pub accept_invite : String → String → String → Action LoginResult
  accept_invite invite_token name password = do
    claims ←
        require_claims env s invite_token purpose_invite
          (bad_request_error "invalid or expired invite token")
    raise_if (ltb (len password) 10) (bad_request_error "password must be at least 10 characters")
    u ←
        map_error (λ _. bad_request_error "invite is no longer valid")
          (Users.find_by_id env claims.user_id)
    raise_if u.is_active (conflict_error "account is already active")
    hashed ← gets (λ w. env.generate_hash w password)
    hash ← or_raise hashed (wrapped "hash password" (plain "bcrypt"))
    Users.update env u.id (record { name = some (trim_space name); role = none })
    Users.update_password env u.id hash
    Users.clear_lock env u.id
    token ←
        issue_purpose_token env s.cfg.app_secret u.id u.email purpose_totp_setup
          (s.cfg.totp_setup_expiry_minutes * minute)
    pure (setup_result token)
