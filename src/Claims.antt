-- ===== src/Claims.antt =====
-- internal/auth/token.go: the purposes and the payload of a token, and what the JWT library hands
-- to and takes from this package.
use go_with_me.Base.{ℕ, String, Bool, Option, List}

abbrev pub purpose_session : String
purpose_session = ""

abbrev pub purpose_mfa : String
purpose_mfa = "mfa"

abbrev pub purpose_totp_setup : String
purpose_totp_setup = "totp_setup"

abbrev pub purpose_password_reset : String
purpose_password_reset = "pwd_reset"

abbrev pub purpose_invite : String
purpose_invite = "invite"

-- `Claims`, with the fields of `jwt.RegisteredClaims` that are set.
pub record Claims : Type 0 where
  pub subject : String
  pub issued_at : ℕ
  pub expires_at : ℕ
  pub user_id : ℕ
  pub email : String
  pub role : String
  pub permissions : List String
  pub purpose : String

-- The signing method that a token's header names.
pub data SigningMethod : Type 0 where
  hmac : SigningMethod
  other : String → SigningMethod

-- `jwt.Token` after a parse: its claims, if they are of the type `*Claims`, and `Valid`.
pub record ParsedToken : Type 0 where
  pub claims : Option Claims
  pub valid : Bool
