-- ===== src/Http/Body.antt =====
-- The bodies of the requests, and what binding makes of one.
use go_with_me.Base.{ℕ, String, Option}
use go_with_me.Models.{UserRole}
use go_with_me.ApiError.{bad_request_error}
use go_with_me.Action.{Action, pure, raise}
use go_with_me.Http.{HttpRequest}

-- `ShouldBindJSON`: a value, or the text of the error.
pub data Bound (A : Type 0) : Type 0 where
  bound : A → Bound A
  unbound : String → Bound A

pub record LoginRequest : Type 0 where
  pub email : String
  pub password : String

pub record VerifyTotpRequest : Type 0 where
  pub mfa_token : String
  pub code : String

pub record ConfirmTotpRequest : Type 0 where
  pub secret : String
  pub code : String

pub record ForgotPasswordRequest : Type 0 where
  pub email : String

pub record VerifyResetEmailRequest : Type 0 where
  pub email : String
  pub otp : String

pub record CompletePasswordResetRequest : Type 0 where
  pub new_password : String
  pub totp_code : String

pub record AcceptInviteRequest : Type 0 where
  pub invite_token : String
  pub name : String
  pub password : String

pub record UpdateUserRequest : Type 0 where
  pub name : Option String
  pub role : Option UserRole

pub record InviteRequest : Type 0 where
  pub email : String
  pub name : String
  pub role : UserRole

-- gin's binding of each body, with the validators of its tags, and `uuid.Parse`.
pub record Gin : Type 0 where
  pub bind_login : HttpRequest → Bound LoginRequest
  pub bind_verify_totp : HttpRequest → Bound VerifyTotpRequest
  pub bind_confirm_totp : HttpRequest → Bound ConfirmTotpRequest
  pub bind_forgot_password : HttpRequest → Bound ForgotPasswordRequest
  pub bind_verify_reset_email : HttpRequest → Bound VerifyResetEmailRequest
  pub bind_complete_password_reset : HttpRequest → Bound CompletePasswordResetRequest
  pub bind_accept_invite : HttpRequest → Bound AcceptInviteRequest
  pub bind_update_user : HttpRequest → Bound UpdateUserRequest
  pub bind_invite : HttpRequest → Bound InviteRequest
  pub parse_uuid : String → Option ℕ

-- `if err := c.ShouldBindJSON(&req); err != nil { lib.Fail(c, lib.BadRequest(err.Error())); return }`
abbrev pub bind : {A : Type 0} → Bound A → Action A
bind (bound a) = pure a
bind (unbound message) = raise (bad_request_error message)
