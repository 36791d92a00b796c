-- ===== src/World.antt =====
-- The state that a request works on, and the services and libraries outside the repository.
use go_with_me.Base.{ℕ, ◌*◌, String, Bool, false, Option, List, ◌≡◌}
use go_with_me.Models.{User, PasswordReset, AuditLog}
use go_with_me.Claims.{Claims, SigningMethod, ParsedToken}

-- `time.Second`, `time.Minute` and `time.Hour`.
abbrev pub second : ℕ
second = 1_000_000_000

abbrev pub minute : ℕ
minute = 60 * second

abbrev pub hour : ℕ
hour = 60 * minute

-- The database's tables, the clock and the log lines of the notifier (address and code). A request
-- is observed at one instant: `time.Now()` and SQL's `NOW()` are `now` throughout.
pub record World : Type 0 where
  pub users : List User
  pub resets : List PasswordReset
  pub audit : List AuditLog
  pub now : ℕ
  pub notified : List (String × String)

-- The statements that the repositories send.
pub data Statement : Type 0 where
  create_user find_user_by_id find_user_by_email count_users list_users : Statement
  update_user update_password incr_failed_attempts lock_until clear_lock : Statement
  set_totp deactivate count_super_admins : Statement
  delete_resets create_reset find_reset set_token consume delete_expired : Statement
  create_audit count_audit list_audit : Statement

-- What is not implemented here. Randomness is read off the world, so that it differs by request.
pub record Env : Type 0 where
  -- whether the database fails this statement now
  pub fails : Statement → World → Bool
  -- `gen_random_uuid()`, and the text of a UUID
  pub new_id : World → ℕ
  pub uuid_text : ℕ → String
  -- golang-jwt: `NewNumericDate`, `SignedString` with HS256, `ParseWithClaims` with a key function
  pub numeric_date : ℕ → ℕ
  pub sign_jwt : String → Claims → Option String
  pub parse_jwt : ℕ → String → (SigningMethod → Option String) → Option ParsedToken
  -- bcrypt: `GenerateFromPassword`, and `CompareHashAndPassword hash password`
  pub generate_hash : World → String → Option String
  pub compare_hash : String → String → Bool
  -- pquerna/otp: `totp.Generate issuer account` (secret and URL), and `totp.Validate code secret`
  pub generate_totp : World → String → String → Option (String × String)
  pub validate_totp : ℕ → String → String → Bool
  -- the hexadecimal SHA-256 of a text, and `rand.Int` below a bound
  pub sha256_hex : String → String
  pub random_below : World → ℕ → Option ℕ

-- The database answers every statement.
abbrev pub IsUp : Env → Type 0
IsUp env = (s : Statement) (w : World) → env.fails s w ≡ false
