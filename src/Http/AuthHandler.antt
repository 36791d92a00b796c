-- ===== src/Http/AuthHandler.antt =====
-- internal/api/handlers/auth_handler.go.
use go_with_me.Base.{String, ◌=ₛ◌, if◌then◌else◌}
use go_with_me.ApiError.{sentinel, unauthorized}
use go_with_me.Models.{User}
use go_with_me.World.{Env}
use go_with_me.Action.{Action, ignore, pure, raise_if, ◌>>=◌, ◌>>◌}
use go_with_me.Services.Auth.{AuthService, LoginResult}
use go_with_me.Services.Auth.Login
use go_with_me.Services.Auth.Totp
use go_with_me.Services.Auth.Reset
use go_with_me.Services.Auth.Invite
use go_with_me.Services.Auth.Profile
use go_with_me.Http.{
  HttpRequest, Handler, Response, mfa_challenge, setup_challenge, session, totp_key, message,
  reset_token, onboarding, profile,
}
use go_with_me.Http.Answers.{respond, ok_response, created}
use go_with_me.Http.Auth.{extract_setup_token}
use go_with_me.Http.Body.{Gin, bind}

-- `access_token` and `expires_at`.
abbrev pub session_answer : LoginResult → Response
session_answer r = ok_response (session r.access_token r.expires_at)

abbrev pub login_answer : LoginResult → Response
login_answer r =
    if r.mfa_required
    then ok_response (mfa_challenge r.mfa_token)
    else if r.totp_setup_required
    then ok_response (setup_challenge r.setup_token)
    else session_answer r

module _ (env : Env) (gin : Gin) (s : AuthService) where
  -- The call of each handler, and the handler.
  abbrev pub login_call : HttpRequest → Action LoginResult
  login_call r = do req ← bind (gin.bind_login r); Login.login env s req.email req.password

  unfoldable pub login : Handler
  login r i = respond (login_call r) login_answer

  abbrev pub verify_totp_call : HttpRequest → Action LoginResult
  verify_totp_call r = do
    req ← bind (gin.bind_verify_totp r)
    Totp.verify_totp env s req.mfa_token req.code

  unfoldable pub verify_totp : Handler
  verify_totp r i = respond (verify_totp_call r) session_answer

  -- `setupToken := extractSetupToken(c)`, which must not be empty.
  abbrev pub setup_token_of : HttpRequest → Action String
  setup_token_of r = do
    raise_if (extract_setup_token r =ₛ "") (sentinel unauthorized)
    pure (extract_setup_token r)

  abbrev pub setup_totp_call : HttpRequest → Action (String × String)
  setup_totp_call r = do token ← setup_token_of r; Totp.setup_totp env s token

  abbrev pub key_answer : String × String → Response
  key_answer (secret, url) = ok_response (totp_key secret url)

  unfoldable pub setup_totp : Handler
  setup_totp r i = respond (setup_totp_call r) key_answer

  abbrev pub confirm_totp_call : HttpRequest → Action LoginResult
  confirm_totp_call r = do
    token ← setup_token_of r
    req ← bind (gin.bind_confirm_totp r)
    Totp.confirm_totp env s token req.secret req.code

  unfoldable pub confirm_totp : Handler
  confirm_totp r i = respond (confirm_totp_call r) session_answer

  abbrev pub forgot_password_call : HttpRequest → Action (Unit {0})
  forgot_password_call r = do
    req ← bind (gin.bind_forgot_password r)
    ignore (Reset.forgot_password env s req.email)

  abbrev pub sent_answer : Unit {0} → Response
  sent_answer _ =
      ok_response (message "if that email is registered, you will receive a reset code shortly")

  unfoldable pub forgot_password : Handler
  forgot_password r i = respond (forgot_password_call r) sent_answer

  abbrev pub verify_reset_email_call : HttpRequest → Action String
  verify_reset_email_call r = do
    req ← bind (gin.bind_verify_reset_email r)
    Reset.verify_reset_email env s req.email req.otp

  abbrev pub reset_answer : String → Response
  reset_answer token = ok_response (reset_token token)

  unfoldable pub verify_reset_email : Handler
  verify_reset_email r i = respond (verify_reset_email_call r) reset_answer

  abbrev pub complete_password_reset_call : HttpRequest → Action (Unit {0})
  complete_password_reset_call r = do
    token ← setup_token_of r
    req ← bind (gin.bind_complete_password_reset r)
    Reset.complete_password_reset env s token req.new_password req.totp_code

  abbrev pub updated_answer : Unit {0} → Response
  updated_answer _ = ok_response (message "password updated — please log in with your new password")

  unfoldable pub complete_password_reset : Handler
  complete_password_reset r i = respond (complete_password_reset_call r) updated_answer

  abbrev pub accept_invite_call : HttpRequest → Action LoginResult
  accept_invite_call r = do
    req ← bind (gin.bind_accept_invite r)
    Invite.accept_invite env s req.invite_token req.name req.password

  abbrev pub onboarding_answer : LoginResult → Response
  onboarding_answer result = created (onboarding result.totp_setup_required result.setup_token)

  unfoldable pub accept_invite : Handler
  accept_invite r i = respond (accept_invite_call r) onboarding_answer

  abbrev pub me_answer : User → Response
  me_answer u = ok_response (profile u)

  unfoldable pub me : Handler
  me r i = respond (Profile.me env i.user_id) me_answer
