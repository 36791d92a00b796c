-- ===== src/Changes/Resets.antt =====
-- The statements of the password reset repository, as writes.
use go_with_me.Base.{ℕ}
use go_with_me.Models.{PasswordReset}
use go_with_me.World.{World, Env}
use go_with_me.Action.{modify}
use go_with_me.Action.Keeps.{Keeps, Keeps-modify, keeps_rules}
use go_with_me.Base.{List}
use go_with_me.Repository.Resets.{
  CreatePasswordResetParams, delete_by_user, create, find_by_user_id, consume, delete_expired,
}
use go_with_me.Changes.{Write, Changes}

module _ (env : Env) {P : World → Type 0} where
  pub find_by_user_id-Keeps : (user_id : ℕ) → Keeps P (find_by_user_id env user_id)
  unfolding find_by_user_id
  find_by_user_id-Keeps user_id = search keeps_rules

module _ {w₀ : World} where
  resets-Keeps :
      (f : World → List PasswordReset)
      → Keeps (Changes w₀) (modify (λ w. record w { resets = f w }))
  resets-Keeps f = Keeps-modify _ (λ w h. Changes.next h (Write.set_resets w (f w)))

module _ (env : Env) {w₀ : World} where
  delete_by_user-Changes : (user_id : ℕ) → Keeps (Changes w₀) (delete_by_user env user_id)
  unfolding delete_by_user
  delete_by_user-Changes user_id = search (keeps_rules, resets-Keeps)

  pub create-Changes : (params : CreatePasswordResetParams) → Keeps (Changes w₀) (create env params)
  unfolding create
  create-Changes params = search (keeps_rules, delete_by_user-Changes, resets-Keeps) depth 12

  pub consume-Changes : (id : ℕ) → Keeps (Changes w₀) (consume env id)
  unfolding consume
  consume-Changes id = search (keeps_rules, resets-Keeps) depth 12

  pub delete_expired-Changes : Keeps (Changes w₀) (delete_expired env)
  unfolding delete_expired
  delete_expired-Changes = search (keeps_rules, resets-Keeps) depth 12
