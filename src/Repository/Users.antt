-- ===== src/Repository/Users.antt =====
-- internal/repository/implementation/user.go, over the table `users` of migrations/002_users.sql.
-- Reads go to the table that writes go to: a replica that lags behind is not modelled.
pub mod Laws
pub mod Listing
pub mod Store
pub mod Rows
pub mod Sql
use go_with_me.Base.{
  ℕ, suc, ◌+◌, ◌-◌, ◌^◌, String, Bool, true, false, ◌&&◌, ◌||◌, not, Option, none, some, List, [],
  ◌∷◌, leb, ◌==◌, ◌=ₛ◌, if◌then◌else◌, any, find?, count, update_where,
}
use go_with_me.Base.Text.{to_lower, trim_space}
use go_with_me.ApiError.{Error, sentinel, not_found, no_rows, plain, wrapped, is_no_rows}
use go_with_me.Repository.Sql.{enum_error}
use go_with_me.Models.{User, UserRole}
use go_with_me.Models.Roles.{role_super_admin, is_role}
use go_with_me.World.{
  World, Env, Statement, create_user, find_user_by_id, find_user_by_email, update_user,
}
use go_with_me.Action.{
  Result, ok, err, Action, pure, raise, gets, or_raise, map_error, wrap, query, modify, raise_if,
  done, ◌>>=◌, ◌>>◌,
}

pub record CreateUserParams : Type 0 where
  pub email : String
  pub name : String
  pub password_hash : String
  pub role : UserRole

pub record UpdateUserParams : Type 0 where
  pub name : Option String
  pub role : Option UserRole

abbrev pub has_id : ℕ → User → Bool
has_id id u = u.id == id

abbrev pub has_email : String → User → Bool
has_email email u = u.email =ₛ email

-- `strings.ToLower(strings.TrimSpace(email))`
abbrev pub normal_email : String → String
normal_email email = to_lower (trim_space email)

abbrev pub is_active_super_admin : User → Bool
is_active_super_admin u = u.role =ₛ role_super_admin && u.is_active

abbrev pub int4_max : ℕ
int4_max = 2 ^ 31 - 1

abbrev pub is_full : Option User → Bool
is_full none = false
is_full (some u) = leb int4_max u.failed_attempts

-- `UPDATE users SET … WHERE id = $1`
abbrev pub update_by_id : ℕ → (User → User) → World → World
update_by_id id f w = record w { users = update_where (has_id id) f w.users }

-- The row of an INSERT, with the column defaults.
abbrev pub new_user : CreateUserParams → ℕ → ℕ → User
new_user params id now = record {
  id = id;
  email = normal_email params.email;
  name = trim_space params.name;
  password_hash = params.password_hash;
  role = params.role;
  totp_secret = none;
  totp_enabled = false;
  failed_attempts = 0;
  locked_until = none;
  is_active = true;
  created_at = now;
  updated_at = now;
}

-- The constraints of the table: the primary key, the unique address, the enum of roles.
abbrev pub is_insertable : User → World → Bool
is_insertable u w =
    not (any (has_id u.id) w.users) && not (any (has_email u.email) w.users) && is_role u.role

abbrev pub set_name : Option String → User → User
set_name none u = u
set_name (some name) u = record u { name = trim_space name }

abbrev pub set_role : Option UserRole → User → User
set_role none u = u
set_role (some role) u = record u { role = role }

-- The rows after each UPDATE, at the time `now`.
abbrev pub with_params : UpdateUserParams → ℕ → User → User
with_params params now u = record (set_role params.role (set_name params.name u)) {
  updated_at = now;
}

abbrev pub with_password : String → ℕ → User → User
with_password hash now u = record u { password_hash = hash; updated_at = now }

abbrev pub with_failure : ℕ → User → User
with_failure now u = record u { failed_attempts = u.failed_attempts + 1; updated_at = now }

abbrev pub with_lock : ℕ → ℕ → User → User
with_lock until now u = record u { locked_until = some until; updated_at = now }

abbrev pub without_lock : ℕ → User → User
without_lock now u = record u { failed_attempts = 0; locked_until = none; updated_at = now }

abbrev pub with_totp : String → Bool → ℕ → User → User
with_totp secret enabled now u = record u {
  totp_secret = some secret;
  totp_enabled = enabled;
  updated_at = now;
}

abbrev pub without_access : ℕ → User → User
without_access now u = record u { is_active = false; updated_at = now }

abbrev pub is_none {ℓ} : {A : Type ℓ} → Option A → Bool
is_none none = true
is_none (some _) = false

abbrev pub role_fits : Option UserRole → Bool
role_fits none = true
role_fits (some role) = is_role role

-- `if errors.Is(err, pgx.ErrNoRows) { return ErrNotFound }; return f(err)`
abbrev pub not_found_on_no_rows : (Error → Error) → Error → Error
not_found_on_no_rows f e = if is_no_rows e then sentinel not_found else f e

module _ (env : Env) where
  unfoldable pub create : CreateUserParams → Action User
  create params = query env create_user do
    u ← gets (λ w. new_user params (env.new_id w) w.now)
    raise_if (not ((← gets (is_insertable u)))) (plain "constraint violation")
    modify (λ w. record w { users = u ∷ w.users })
    pure u

  unfoldable pub find_by_id : ℕ → Action User
  find_by_id id = map_error (not_found_on_no_rows (λ e. e)) (
      query env find_user_by_id
        do row ← gets (λ w. find? (has_id id) w.users); or_raise row no_rows)

  unfoldable pub find_by_email : String → Action User
  find_by_email email = map_error (not_found_on_no_rows (λ e. e)) (
      query env find_user_by_email
        do row ← gets (λ w. find? (has_email (normal_email email)) w.users); or_raise row no_rows)

  -- `UPDATE … RETURNING`: one row at most has the id.
  unfoldable pub update_row : ℕ → UpdateUserParams → Action User
  update_row id params = query env update_user do
    raise_if (not (role_fits params.role)) enum_error
    modify λ w. update_by_id id (with_params params w.now) w
    row ← gets (λ w. find? (has_id id) w.users)
    or_raise row no_rows

  unfoldable pub update : ℕ → UpdateUserParams → Action User
  unfolding find_by_id update_row
  update id params =
      if is_none params.name && is_none params.role
      then find_by_id id
      else map_error (not_found_on_no_rows (wrapped "update user")) (update_row id params)

  -- An UPDATE of the row with this id; the result says whether there is one.
  abbrev exec_by_id : Statement → ℕ → (World → User → User) → Action Bool
  exec_by_id s id f = query env s do
    found ← gets (λ w. any (has_id id) w.users)
    modify (λ w. update_by_id id (f w) w)
    pure found

  unfoldable pub update_password : ℕ → String → Action (Unit {0})
  update_password id hash = do
    found ←
        wrap "update password"
          (exec_by_id Statement.update_password id (λ w. with_password hash w.now))
    raise_if (not found) (sentinel not_found)

  -- `failed_attempts` is a column of 32 bits.
  unfoldable pub incr_failed_attempts : ℕ → Action (Unit {0})
  incr_failed_attempts id = query env Statement.incr_failed_attempts do
    full ← gets (λ w. is_full (find? (has_id id) w.users))
    raise_if full (plain "integer out of range")
    modify λ w. update_by_id id (with_failure w.now) w

  unfoldable pub lock_until : ℕ → ℕ → Action (Unit {0})
  lock_until id until = exec_by_id Statement.lock_until id (λ w. with_lock until w.now) >> done

  unfoldable pub clear_lock : ℕ → Action (Unit {0})
  clear_lock id = exec_by_id Statement.clear_lock id (λ w. without_lock w.now) >> done

  unfoldable pub set_totp : ℕ → String → Bool → Action (Unit {0})
  set_totp id secret enabled =
      exec_by_id Statement.set_totp id (λ w. with_totp secret enabled w.now) >> done

  unfoldable pub deactivate : ℕ → Action (Unit {0})
  deactivate id = do
    found ← wrap "deactivate user" (exec_by_id Statement.deactivate id (λ w. without_access w.now))
    raise_if (not found) (sentinel not_found)

  unfoldable pub count_super_admins : Action ℕ
  count_super_admins =
      wrap "count super admins"
        (query env Statement.count_super_admins do gets (λ w. count is_active_super_admin w.users))
