-- ===== src/Http/Envelope/Handlers.antt =====
-- Every handler answers with standard responses.
use go_with_me.Base.{refl, inl, inr, if◌then◌else◌}
use go_with_me.World.{Env}
use go_with_me.Services.Auth.{AuthService, LoginResult}
use go_with_me.Services.Auth.Profile
use go_with_me.Repository.Users.Listing
use go_with_me.Repository.Users.Listing.{Ilike}
use go_with_me.Config.{Config}
use go_with_me.Http.{Response, mfa_challenge, setup_challenge}
use go_with_me.Http.Answers.{ok_response}
use go_with_me.Http.Body.{Gin}
use go_with_me.Http.AuthHandler
use go_with_me.Http.UserHandler
use go_with_me.Http.Envelope.{IsReply}
use go_with_me.Http.Envelope.Errors.{fails_rules}
use go_with_me.Http.Envelope.Services.{
  login-Fails, verify_totp-Fails, setup_totp-Fails, confirm_totp-Fails, verify_reset_email-Fails,
  complete_password_reset-Fails, accept_invite-Fails, get-Fails, invite-Fails, update-Fails,
  deactivate-Fails, list-Fails, find_by_id-Fails,
}
use go_with_me.Http.Envelope.Replies.{
  Replies, one_of, respond-Replies, rate_limit-Replies, require_purpose-Replies,
  require_role-Replies, audit-Replies,
}

module _ (env : Env) (gin : Gin) (s : AuthService) where
  login_answer-IsReply : (a : LoginResult) → IsReply (AuthHandler.login_answer a)
  login_answer-IsReply a =
      let other : Response =
        if a.totp_setup_required
        then ok_response (setup_challenge a.setup_token)
        else AuthHandler.session_answer a in
      one_of a.mfa_required (ok_response (mfa_challenge a.mfa_token)) other (inl refl) (
        one_of a.totp_setup_required (ok_response (setup_challenge a.setup_token))
          (AuthHandler.session_answer a) (inl refl) (inl refl))

  pub login-Replies : Replies (AuthHandler.login env gin s)
  unfolding AuthHandler.login
  login-Replies =
      respond-Replies (λ r i. AuthHandler.login_call env gin s r) (λ r. AuthHandler.login_answer)
        (λ r i. search (fails_rules, login-Fails)) (λ r. login_answer-IsReply)

  pub verify_totp-Replies : Replies (AuthHandler.verify_totp env gin s)
  unfolding AuthHandler.verify_totp
  verify_totp-Replies =
      respond-Replies (λ r i. AuthHandler.verify_totp_call env gin s r)
        (λ r. AuthHandler.session_answer) (λ r i. search (fails_rules, verify_totp-Fails))
        (λ r a. inl refl)

  pub setup_totp-Replies : Replies (AuthHandler.setup_totp env gin s)
  unfolding AuthHandler.setup_totp
  setup_totp-Replies =
      respond-Replies (λ r i. AuthHandler.setup_totp_call env gin s r)
        (λ r. AuthHandler.key_answer env gin s) (λ r i. search (fails_rules, setup_totp-Fails))
        (λ r (a, b). inl refl)

  pub confirm_totp-Replies : Replies (AuthHandler.confirm_totp env gin s)
  unfolding AuthHandler.confirm_totp
  confirm_totp-Replies =
      respond-Replies (λ r i. AuthHandler.confirm_totp_call env gin s r)
        (λ r. AuthHandler.session_answer) (λ r i. search (fails_rules, confirm_totp-Fails) depth 9)
        (λ r a. inl refl)

  pub forgot_password-Replies : Replies (AuthHandler.forgot_password env gin s)
  unfolding AuthHandler.forgot_password
  forgot_password-Replies =
      respond-Replies (λ r i. AuthHandler.forgot_password_call env gin s r)
        (λ r. AuthHandler.sent_answer env gin s) (λ r i. search fails_rules) (λ r a. inl refl)

  pub verify_reset_email-Replies : Replies (AuthHandler.verify_reset_email env gin s)
  unfolding AuthHandler.verify_reset_email
  verify_reset_email-Replies =
      respond-Replies (λ r i. AuthHandler.verify_reset_email_call env gin s r)
        (λ r. AuthHandler.reset_answer env gin s)
        (λ r i. search (fails_rules, verify_reset_email-Fails)) (λ r a. inl refl)

  pub complete_password_reset-Replies : Replies (AuthHandler.complete_password_reset env gin s)
  unfolding AuthHandler.complete_password_reset
  complete_password_reset-Replies =
      respond-Replies (λ r i. AuthHandler.complete_password_reset_call env gin s r)
        (λ r. AuthHandler.updated_answer env gin s)
        (λ r i. search (fails_rules, complete_password_reset-Fails) depth 9) (λ r a. inl refl)

  pub accept_invite-Replies : Replies (AuthHandler.accept_invite env gin s)
  unfolding AuthHandler.accept_invite
  accept_invite-Replies =
      respond-Replies (λ r i. AuthHandler.accept_invite_call env gin s r)
        (λ r. AuthHandler.onboarding_answer env gin s)
        (λ r i. search (fails_rules, accept_invite-Fails)) (λ r a. inr (inl refl))

  pub me-Replies : Replies (AuthHandler.me env gin s)
  unfolding AuthHandler.me Profile.me
  me-Replies =
      respond-Replies (λ r i. Profile.me env i.user_id) (λ r. AuthHandler.me_answer env gin s)
        (λ r i. find_by_id-Fails env i.user_id) (λ r a. inl refl)

module _ (env : Env) (gin : Gin) (cfg : Config) where
  pub list-Replies : (ilike : Ilike) → Replies (UserHandler.list env gin cfg ilike)
  unfolding UserHandler.list
  list-Replies ilike =
      respond-Replies (λ r i. Listing.list env ilike (UserHandler.listing_params env gin cfg r))
        (UserHandler.list_answer env gin cfg)
        (λ r i. list-Fails env cfg ilike (UserHandler.listing_params env gin cfg r))
        (λ r (us, total). inl refl)

  pub get-Replies : Replies (UserHandler.get env gin cfg)
  unfolding UserHandler.get
  get-Replies =
      respond-Replies (λ r i. UserHandler.get_call env gin cfg r)
        (λ r. UserHandler.user_answer env gin cfg) (λ r i. search (fails_rules, get-Fails))
        (λ r a. inl refl)

  pub update-Replies : Replies (UserHandler.update env gin cfg)
  unfolding UserHandler.update
  update-Replies =
      respond-Replies (λ r i. UserHandler.update_call env gin cfg r)
        (λ r. UserHandler.user_answer env gin cfg)
        (λ r i. search (fails_rules, update-Fails) depth 9) (λ r a. inl refl)

  pub invite-Replies : Replies (UserHandler.invite env gin cfg)
  unfolding UserHandler.invite
  invite-Replies =
      respond-Replies (λ r i. UserHandler.invite_call env gin cfg r)
        (λ r. UserHandler.invite_answer env gin cfg) (λ r i. search (fails_rules, invite-Fails))
        (λ r a. inr (inl refl))

  pub deactivate-Replies : Replies (UserHandler.deactivate env gin cfg)
  unfolding UserHandler.deactivate
  deactivate-Replies =
      respond-Replies (λ r i. UserHandler.deactivate_call env gin cfg r)
        (λ r. UserHandler.deactivate_answer env gin cfg)
        (λ r i. search (fails_rules, deactivate-Fails)) (λ r a. inr (inr refl))

pub ruleset reply_rules = (
  rate_limit-Replies, require_purpose-Replies, require_role-Replies, audit-Replies, login-Replies,
  verify_totp-Replies, setup_totp-Replies, confirm_totp-Replies, forgot_password-Replies,
  verify_reset_email-Replies, complete_password_reset-Replies, accept_invite-Replies, me-Replies,
  list-Replies, get-Replies, update-Replies, invite-Replies, deactivate-Replies,
)
