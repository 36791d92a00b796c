-- ===== src/Http/Calls.antt =====
-- The handlers, as sequences of the allowed writes.
use go_with_me.Base.{ℕ, String, ◌∷◌}
use go_with_me.Config.{Config}
use go_with_me.World.{World, Env}
use go_with_me.Action.{modify}
use go_with_me.Action.Keeps.{
  Keeps, Keeps-modify, Keeps-bind, Keeps-ignore, Keeps-or_raise, keeps_rules,
}
use go_with_me.Services.Auth.{wired_auth_service}
use go_with_me.Services.Auth.Profile
use go_with_me.Services.UserAdmin
use go_with_me.Repository.Users.Listing
use go_with_me.Repository.Users.Listing.{Ilike}
use go_with_me.Changes.{Write, Changes}
use go_with_me.Changes.Users.{find_by_id-Keeps}
use go_with_me.Changes.Auth
use go_with_me.Changes.Admin
use go_with_me.Changes.Invite
use go_with_me.Http.{HttpRequest}
use go_with_me.Http.Keeps.{Serves, respond-keeps, Keeps-bound}
use go_with_me.Http.Body.{Gin}
use go_with_me.Http.Audit.{create, CreateAuditParams, new_audit_log}
use go_with_me.Http.AuthHandler
use go_with_me.Http.UserHandler

append-Changes :
    {w₀ : World} (params : CreateAuditParams) (id now : ℕ)
    → Keeps (Changes w₀) (modify (λ w. record w { audit = new_audit_log params id now ∷ w.audit }))
append-Changes params id now =
    Keeps-modify _ (λ w h. Changes.next h (Write.add_audit w (new_audit_log params id now)))

pub create-Changes :
    {w₀ : World} (env : Env) (encode : HttpRequest → ℕ → String) (params : CreateAuditParams)
    → Keeps (Changes w₀) (create env encode params)
unfolding create
create-Changes env encode params = search (keeps_rules, append-Changes) depth 9

-- The handlers of authentication.
module _ (env : Env) (gin : Gin) (cfg : Config) {w₀ : World} where
  token_of-Keeps :
      (r : HttpRequest)
      → Keeps (Changes w₀) (AuthHandler.setup_token_of env gin (wired_auth_service cfg) r)
  token_of-Keeps r = search keeps_rules

  pub login-Serves : Serves (Changes w₀) (AuthHandler.login env gin (wired_auth_service cfg))
  unfolding AuthHandler.login
  login-Serves = record {
    at = λ r i.
        respond-keeps (AuthHandler.login_call env gin (wired_auth_service cfg) r)
          AuthHandler.login_answer
          (Keeps-bound _ _
            (λ req. Auth.login-Changes env (wired_auth_service cfg) req.email req.password));
  }

  pub verify_totp-Serves :
      Serves (Changes w₀) (AuthHandler.verify_totp env gin (wired_auth_service cfg))
  unfolding AuthHandler.verify_totp
  verify_totp-Serves = record {
    at = λ r i.
        respond-keeps (AuthHandler.verify_totp_call env gin (wired_auth_service cfg) r)
          AuthHandler.session_answer
          (Keeps-bound _ _
            (λ req. Auth.verify_totp-Changes env (wired_auth_service cfg) req.mfa_token req.code));
  }

  pub setup_totp-Serves :
      Serves (Changes w₀) (AuthHandler.setup_totp env gin (wired_auth_service cfg))
  unfolding AuthHandler.setup_totp
  setup_totp-Serves = record {
    at = λ r i.
        respond-keeps (AuthHandler.setup_totp_call env gin (wired_auth_service cfg) r)
          (AuthHandler.key_answer env gin (wired_auth_service cfg))
          (Keeps-bind (AuthHandler.setup_token_of env gin (wired_auth_service cfg) r) _
            (token_of-Keeps r)
            (λ token. Auth.setup_totp-Changes env (wired_auth_service cfg) token));
  }

  pub confirm_totp-Serves :
      Serves (Changes w₀) (AuthHandler.confirm_totp env gin (wired_auth_service cfg))
  unfolding AuthHandler.confirm_totp
  confirm_totp-Serves = record {
    at = λ r i.
        respond-keeps (AuthHandler.confirm_totp_call env gin (wired_auth_service cfg) r)
          AuthHandler.session_answer
          (Keeps-bind (AuthHandler.setup_token_of env gin (wired_auth_service cfg) r) _
            (token_of-Keeps r)
            (λ token. Keeps-bound _ _ (λ req.
              Auth.confirm_totp-Changes env (wired_auth_service cfg) token req.secret req.code)));
  }

  pub forgot_password-Serves :
      Serves (Changes w₀) (AuthHandler.forgot_password env gin (wired_auth_service cfg))
  unfolding AuthHandler.forgot_password
  forgot_password-Serves = record {
    at = λ r i.
        respond-keeps (AuthHandler.forgot_password_call env gin (wired_auth_service cfg) r)
          (AuthHandler.sent_answer env gin (wired_auth_service cfg))
          (Keeps-bound _ _
            (λ req. Keeps-ignore _ (Auth.forgot_password-Changes env cfg req.email)));
  }

  pub verify_reset_email-Serves :
      Serves (Changes w₀) (AuthHandler.verify_reset_email env gin (wired_auth_service cfg))
  unfolding AuthHandler.verify_reset_email
  verify_reset_email-Serves = record {
    at = λ r i.
        respond-keeps (AuthHandler.verify_reset_email_call env gin (wired_auth_service cfg) r)
          (AuthHandler.reset_answer env gin (wired_auth_service cfg))
          (Keeps-bound _ _ (λ req.
            Auth.verify_reset_email-Changes env (wired_auth_service cfg) req.email req.otp));
  }

  pub complete_password_reset-Serves :
      Serves (Changes w₀) (AuthHandler.complete_password_reset env gin (wired_auth_service cfg))
  unfolding AuthHandler.complete_password_reset
  complete_password_reset-Serves = record {
    at = λ r i.
        respond-keeps (AuthHandler.complete_password_reset_call env gin (wired_auth_service cfg) r)
          (AuthHandler.updated_answer env gin (wired_auth_service cfg))
          (Keeps-bind (AuthHandler.setup_token_of env gin (wired_auth_service cfg) r) _
            (token_of-Keeps r)
            (λ token. Keeps-bound _ _ (λ req.
              Auth.complete_password_reset-Changes env (wired_auth_service cfg) token
                req.new_password req.totp_code)));
  }

  pub accept_invite-Serves :
      Serves (Changes w₀) (AuthHandler.accept_invite env gin (wired_auth_service cfg))
  unfolding AuthHandler.accept_invite
  accept_invite-Serves = record {
    at = λ r i.
        respond-keeps (AuthHandler.accept_invite_call env gin (wired_auth_service cfg) r)
          (AuthHandler.onboarding_answer env gin (wired_auth_service cfg))
          (Keeps-bound _ _ (λ req.
            Invite.accept_invite-Changes env (wired_auth_service cfg) req.invite_token req.name
              req.password));
  }

  pub me-Serves : Serves (Changes w₀) (AuthHandler.me env gin (wired_auth_service cfg))
  unfolding AuthHandler.me Profile.me
  me-Serves = record {
    at = λ r i.
        respond-keeps (Profile.me env i.user_id)
          (AuthHandler.me_answer env gin (wired_auth_service cfg)) (find_by_id-Keeps env i.user_id);
  }

-- The handlers of the users.
module _ (env : Env) (gin : Gin) (cfg : Config) {w₀ : World} where
  pub list-Serves : (ilike : Ilike) → Serves (Changes w₀) (UserHandler.list env gin cfg ilike)
  unfolding UserHandler.list Listing.list
  list-Serves ilike = record {
    at = λ r i.
        respond-keeps (Listing.list env ilike (UserHandler.listing_params env gin cfg r))
          (UserHandler.list_answer env gin cfg r) (search keeps_rules depth 12);
  }

  pub get-Serves : Serves (Changes w₀) (UserHandler.get env gin cfg)
  unfolding UserHandler.get UserAdmin.get
  get-Serves = record {
    at = λ r i.
        respond-keeps (UserHandler.get_call env gin cfg r) (UserHandler.user_answer env gin cfg) (
          Keeps-bind (UserHandler.id_of env gin cfg r) _ (Keeps-or_raise _ _)
            (λ id. find_by_id-Keeps env id));
  }

  pub update-Serves : Serves (Changes w₀) (UserHandler.update env gin cfg)
  unfolding UserHandler.update
  update-Serves = record {
    at = λ r i.
        respond-keeps (UserHandler.update_call env gin cfg r) (UserHandler.user_answer env gin cfg)
          (Keeps-bind (UserHandler.id_of env gin cfg r) _ (Keeps-or_raise _ _) (λ id.
            Keeps-bound _ _ (λ req.
              Admin.update_user-Changes env id (record { name = req.name; role = req.role }))));
  }

  pub invite-Serves : Serves (Changes w₀) (UserHandler.invite env gin cfg)
  unfolding UserHandler.invite
  invite-Serves = record {
    at = λ r i.
        respond-keeps (UserHandler.invite_call env gin cfg r)
          (UserHandler.invite_answer env gin cfg)
          (Keeps-bound _ _ (λ req. Invite.invite-Changes env cfg req.email req.name req.role));
  }

  pub deactivate-Serves : Serves (Changes w₀) (UserHandler.deactivate env gin cfg)
  unfolding UserHandler.deactivate
  deactivate-Serves = record {
    at = λ r i.
        respond-keeps (UserHandler.deactivate_call env gin cfg r)
          (UserHandler.deactivate_answer env gin cfg)
          (Keeps-bind (UserHandler.id_of env gin cfg r) _ (Keeps-or_raise _ _)
            (λ id. Admin.deactivate_user-Changes env id));
  }
