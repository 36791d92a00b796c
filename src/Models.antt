-- ===== src/Models.antt =====
-- internal/models: the rows of the three tables. An id is the number of a UUID, 0 the nil one; a
-- time is in nanoseconds since the epoch; a nullable column is an `Option`.
pub mod Roles
use go_with_me.Base.{ℕ, String, Bool, true, false, Option, none, some, List, ltb}

-- `UserRole` is a string in the source; the five values are `Roles`' constants.
abbrev pub UserRole : Type 0
UserRole = String

pub record User : Type 0 where
  pub id : ℕ
  pub email : String
  pub name : String
  pub password_hash : String
  pub role : UserRole
  pub totp_secret : Option String
  pub totp_enabled : Bool
  pub failed_attempts : ℕ
  pub locked_until : Option ℕ
  pub is_active : Bool
  pub created_at : ℕ
  pub updated_at : ℕ

pub record PasswordReset : Type 0 where
  pub id : ℕ
  pub user_id : ℕ
  pub otp_hash : String
  pub token : Option String
  pub expires_at : ℕ
  pub used_at : Option ℕ
  pub created_at : ℕ

pub record AuditLog : Type 0 where
  pub id : ℕ
  pub user_id : Option ℕ
  pub action : String
  pub resource : String
  pub resource_id : Option String
  pub ip_address : String
  pub user_agent : String
  pub metadata : String
  pub created_at : ℕ

-- `IsLocked`, `IsExpired` and `IsConsumed` at the time `now`.
abbrev pub is_locked_at : Option ℕ → ℕ → Bool
is_locked_at none now = false
is_locked_at (some until) now = ltb now until

unfoldable pub is_locked : User → ℕ → Bool
is_locked u now = is_locked_at u.locked_until now

unfoldable pub is_expired : PasswordReset → ℕ → Bool
is_expired r now = ltb r.expires_at now

abbrev pub is_set : Option ℕ → Bool
is_set none = false
is_set (some _) = true

unfoldable pub is_consumed : PasswordReset → Bool
is_consumed r = is_set r.used_at
