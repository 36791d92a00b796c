-- ===== src/Tests.antt =====
-- A small world and concrete libraries, on which the theorems of the other files are applied.
mod Login
mod Tokens
mod Resets
mod Callers
mod Lockouts
mod Panics
mod Queries
mod Routes
mod Rest
mod Start
mod Jobs
mod Limits
use Prim.Native.String.{◌++◌ as text_append}
use go_with_me.Base.{
  ℕ, ◌*◌, String, Bool, true, false, Option, none, some, List, [], ◌∷◌, ◌=ₛ◌, if◌then◌else◌,
}
use go_with_me.Claims.{Claims, SigningMethod, hmac, ParsedToken, purpose_session}
use go_with_me.Config.{Config}
use go_with_me.Models.{User}
use go_with_me.Models.Roles.{role_super_admin, role_member, role_permissions}
use go_with_me.World.{World, Env, hour}
use go_with_me.Services.Auth.{AuthService, wired_auth_service}

abbrev pub alice : User
alice = record {
  id = 1;
  email = "alice@x.io";
  name = "Alice";
  password_hash = "#right";
  role = role_super_admin;
  totp_secret = some "S";
  totp_enabled = true;
  failed_attempts = 0;
  locked_until = none;
  is_active = true;
  created_at = 10;
  updated_at = 10;
}

abbrev pub bob : User
bob = record {
  id = 2;
  email = "bob@x.io";
  name = "Bob";
  password_hash = "#right";
  role = role_member;
  totp_secret = none;
  totp_enabled = false;
  failed_attempts = 0;
  locked_until = none;
  is_active = true;
  created_at = 20;
  updated_at = 20;
}

abbrev pub town : World
town = record { users = alice ∷ bob ∷ []; resets = []; audit = []; now = 1000; notified = [] }

-- The text of a token names its purpose, and its claims are of Alice.
abbrev pub token_text : String → String
token_text purpose = if purpose =ₛ purpose_session then "session" else purpose

abbrev pub claims_of : String → Claims
claims_of text = record {
  subject = "1";
  issued_at = 0;
  expires_at = 9;
  user_id = 1;
  email = "alice@x.io";
  role = role_super_admin;
  permissions = role_permissions role_super_admin;
  purpose = if text =ₛ "session" then purpose_session else text;
}

abbrev pub parsed : String → Option String → Option ParsedToken
parsed text none = none
parsed text (some key) =
    if text =ₛ "forged"
    then none
    else some (record { claims = some (claims_of text); valid = true })

abbrev pub libraries : Env
libraries = record {
  fails = λ s w. false;
  new_id = λ w. 3;
  uuid_text = λ id. "1";
  numeric_date = λ t. t;
  sign_jwt = λ secret c. some (token_text c.purpose);
  parse_jwt = λ now text key. parsed text (key hmac);
  generate_hash = λ w password. some (text_append "#" password);
  compare_hash = λ hash password. hash =ₛ text_append "#" password;
  generate_totp = λ w issuer account. some ("S", "otpauth://x");
  validate_totp = λ now code secret. code =ₛ "123456";
  sha256_hex = λ s. text_append "h" s;
  random_below = λ w n. some 42;
}

abbrev pub settings : Config
settings = record {
  http_port = "8080";
  app_env = "test";
  database_write_url = "postgres://db";
  database_read_urls = [];
  redis_url = "redis://cache";
  event_stream = "events";
  app_secret = "0123456789abcdef0123456789abcdef";
  jwt_expiry_hours = 8;
  mfa_expiry_minutes = 5;
  totp_setup_expiry_minutes = 60;
  password_reset_otp_minutes = 15;
  password_reset_jwt_minutes = 30;
  max_failed_attempts = 2;
  invite_ttl_hours = 72;
  bootstrap_admin_email = "root@x.io";
  bootstrap_admin_password = "root password";
  bootstrap_admin_name = "Root";
  smtp_host = "";
  smtp_port = 587;
  smtp_user = "";
  smtp_password = "";
  smtp_from = "";
}

abbrev pub auth : AuthService
auth = wired_auth_service settings
