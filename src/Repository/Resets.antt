-- ===== src/Repository/Resets.antt =====
-- internal/repository/implementation/password_reset.go, over the table `password_resets`.
pub mod Rows
use go_with_me.Base.{
  ℕ, String, Bool, ◌&&◌, not, Option, none, some, List, [], ◌∷◌, ltb, ◌==◌, if◌then◌else◌, any,
  keep, update_where,
}
use go_with_me.ApiError.{sentinel, not_found, no_rows, plain, wrapped, is_no_rows}
use go_with_me.Models.{PasswordReset, is_set}
use go_with_me.World.{World, Env, Statement, delete_resets, create_reset, find_reset}
use go_with_me.Action.{
  Action, pure, gets, or_raise, map_error, wrap, ignore, query, modify, raise_if, ◌>>=◌, ◌>>◌,
}
use go_with_me.Repository.Users.{has_id}

pub record CreatePasswordResetParams : Type 0 where
  pub user_id : ℕ
  pub otp_hash : String
  pub expires_at : ℕ

abbrev pub of_user : ℕ → PasswordReset → Bool
of_user user_id r = r.user_id == user_id

abbrev pub has_reset_id : ℕ → PasswordReset → Bool
has_reset_id id r = r.id == id

-- `user_id = $1 AND used_at IS NULL`
abbrev pub is_pending : ℕ → PasswordReset → Bool
is_pending user_id r = of_user user_id r && not (is_set r.used_at)

abbrev newer : PasswordReset → Option PasswordReset → Option PasswordReset
newer r none = some r
newer r (some s) = if ltb r.created_at s.created_at then some s else some r

-- `ORDER BY created_at DESC LIMIT 1`; of two rows of one instant, the later written.
abbrev pub latest : List PasswordReset → Option PasswordReset
latest [] = none
latest (r ∷ rs) = newer r (latest rs)

abbrev pub new_reset : CreatePasswordResetParams → ℕ → ℕ → PasswordReset
new_reset params id now = record {
  id = id;
  user_id = params.user_id;
  otp_hash = params.otp_hash;
  token = none;
  expires_at = params.expires_at;
  used_at = none;
  created_at = now;
}

-- The primary key, and the reference to `users`.
abbrev pub is_insertable : PasswordReset → World → Bool
is_insertable r w = not (any (has_reset_id r.id) w.resets) && any (has_id r.user_id) w.users

module _ (env : Env) where
  unfoldable pub delete_by_user : ℕ → Action (Unit {0})
  delete_by_user user_id =
      query env delete_resets
        do modify λ w. record w { resets = keep (λ r. not (of_user user_id r)) w.resets }

  -- `Create`: the deletion's error is dropped.
  unfoldable pub create : CreatePasswordResetParams → Action PasswordReset
  unfolding delete_by_user
  create params = do
    ignore (delete_by_user params.user_id)
    query env create_reset do
      r ← gets (λ w. new_reset params (env.new_id w) w.now)
      fits ← gets (is_insertable r)
      raise_if (not fits) (plain "constraint violation")
      modify (λ w. record w { resets = r ∷ w.resets })
      pure r

  unfoldable pub find_by_user_id : ℕ → Action PasswordReset
  find_by_user_id user_id =
      map_error
        (λ e. if is_no_rows e then sentinel not_found else wrapped "find password reset by user" e)
        (query env find_reset
          do row ← gets (λ w. latest (keep (is_pending user_id) w.resets)); or_raise row no_rows)

  abbrev exec_where :
      Statement → (PasswordReset → Bool) → (World → PasswordReset → PasswordReset) → Action Bool
  exec_where s p f = query env s do
    found ← gets (λ w. any p w.resets)
    modify (λ w. record w { resets = update_where p (f w) w.resets })
    pure found

  unfoldable pub set_token : ℕ → String → Action (Unit {0})
  set_token id token = do
    found ←
        wrap "set reset token" (
          exec_where Statement.set_token (has_reset_id id) (λ w r. record r { token = some token }))
    raise_if (not found) (sentinel not_found)

  unfoldable pub consume : ℕ → Action (Unit {0})
  consume id = do
    found ← wrap "consume password reset" (
        exec_where Statement.consume (λ r. has_reset_id id r && not (is_set r.used_at))
          (λ w r. record r { used_at = some w.now }))
    raise_if (not found) (sentinel not_found)

  unfoldable pub delete_expired : Action (Unit {0})
  delete_expired = wrap "delete expired resets" (
      query env Statement.delete_expired
        do modify λ w. record w { resets = keep (λ r. not (ltb r.expires_at w.now)) w.resets })
