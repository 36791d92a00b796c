-- ===== src/Repository/Users/Rows.antt =====
-- The rows of `users`, as the columns that the statements of internal/repository/implementation/user.go
-- name and as what `scanUser` and `scanUserRow` make of them.
use go_with_me.Base.{ℕ, Option, none, some, List, [], ◌∷◌, ◌≡◌, refl, map, String}
use go_with_me.Models.{User}
use go_with_me.Repository.Sql.{
  Value, uuid, int, time, text, bool, text_or_null, time_or_null, nullable, text_or_null-nullable,
  time_or_null-nullable,
}

pub data Column : Type 0 where
  id email name password_hash role totp_secret totp_enabled : Column
  failed_attempts locked_until is_active created_at updated_at : Column

-- The columns of each SELECT and RETURNING, in their order.
abbrev pub user_columns : List Column
user_columns =
    id ∷ email ∷ name ∷ password_hash ∷ role ∷ totp_secret ∷ totp_enabled ∷ failed_attempts
    ∷ locked_until ∷ is_active ∷ created_at ∷ updated_at ∷ []

-- What the table holds in a column, by its type in migrations/002_users.sql.
abbrev pub cell : User → Column → Value
cell u id = uuid u.id
cell u email = text u.email
cell u name = text u.name
cell u password_hash = text u.password_hash
cell u role = text u.role
cell u totp_secret = nullable text u.totp_secret
cell u totp_enabled = bool u.totp_enabled
cell u failed_attempts = int u.failed_attempts
cell u locked_until = nullable time u.locked_until
cell u is_active = bool u.is_active
cell u created_at = time u.created_at
cell u updated_at = time u.updated_at

abbrev pub row : User → List Value
row u = map (cell u) user_columns

abbrev with_nullables : User → Option (Option String) → Option (Option ℕ) → Option User
with_nullables u (some secret) (some locked) =
    some (record u { totp_secret = secret; locked_until = locked })
with_nullables u _ _ = none

-- `Scan` into the fields, one for each value; none stands for its error.
unfoldable pub scan_user : List Value → Option User
scan_user
      (uuid i
        ∷ text e
        ∷ text n
        ∷ text h
        ∷ text r
        ∷ s
        ∷ bool t
        ∷ int f
        ∷ l
        ∷ bool a
        ∷ time c
        ∷ time u
        ∷ []) =
    with_nullables
      (record {
        id = i;
        email = e;
        name = n;
        password_hash = h;
        role = r;
        totp_secret = none;
        totp_enabled = t;
        failed_attempts = f;
        locked_until = none;
        is_active = a;
        created_at = c;
        updated_at = u;
      })
      (text_or_null s) (time_or_null l)
scan_user _ = none

-- The same, on the rows of a listing.
abbrev pub scan_user_row : List Value → Option User
scan_user_row = scan_user

-- A row is read back as the user that it holds.
pub scan_user-row : (u : User) → scan_user (row u) ≡ some u
unfolding scan_user
scan_user-row u =
    rw (text_or_null-nullable u.totp_secret, time_or_null-nullable u.locked_until) refl
