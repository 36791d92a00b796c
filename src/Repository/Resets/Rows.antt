-- ===== src/Repository/Resets/Rows.antt =====
-- The rows of `password_resets`, and what `scanPasswordReset` makes of them.
use go_with_me.Base.{ℕ, String, Option, none, some, List, [], ◌∷◌, ◌≡◌, refl, map}
use go_with_me.Models.{PasswordReset}
use go_with_me.Repository.Sql.{
  Value, uuid, time, text, text_or_null, time_or_null, nullable, text_or_null-nullable,
  time_or_null-nullable,
}

pub data Column : Type 0 where
  id user_id otp_hash token expires_at used_at created_at : Column

abbrev pub reset_columns : List Column
reset_columns = id ∷ user_id ∷ otp_hash ∷ token ∷ expires_at ∷ used_at ∷ created_at ∷ []

-- What the table holds in a column, by its type in migrations/002_users.sql.
abbrev pub cell : PasswordReset → Column → Value
cell r id = uuid r.id
cell r user_id = uuid r.user_id
cell r otp_hash = text r.otp_hash
cell r token = nullable text r.token
cell r expires_at = time r.expires_at
cell r used_at = nullable time r.used_at
cell r created_at = time r.created_at

abbrev pub row : PasswordReset → List Value
row r = map (cell r) reset_columns

abbrev with_nullables :
    PasswordReset → Option (Option String) → Option (Option ℕ) → Option PasswordReset
with_nullables r (some s) (some t) = some (record r { token = s; used_at = t })
with_nullables r _ _ = none

unfoldable pub scan_password_reset : List Value → Option PasswordReset
scan_password_reset (uuid i ∷ uuid u ∷ text h ∷ t ∷ time e ∷ us ∷ time c ∷ []) =
    with_nullables
      (record {
        id = i;
        user_id = u;
        otp_hash = h;
        token = none;
        expires_at = e;
        used_at = none;
        created_at = c;
      })
      (text_or_null t) (time_or_null us)
scan_password_reset _ = none

pub scan_password_reset-row : (r : PasswordReset) → scan_password_reset (row r) ≡ some r
unfolding scan_password_reset
scan_password_reset-row r = rw (text_or_null-nullable r.token, time_or_null-nullable r.used_at) refl
