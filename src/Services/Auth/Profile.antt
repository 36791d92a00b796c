-- ===== src/Services/Auth/Profile.antt =====
-- `AuthService.Me` and `Logout`.
use go_with_me.Base.{ℕ}
use go_with_me.Models.{User}
use go_with_me.World.{Env}
use go_with_me.Action.{Action, done}
use go_with_me.Repository.Users

unfoldable pub me : Env → ℕ → Action User
me env user_id = Users.find_by_id env user_id

-- No token is revoked.
unfoldable pub logout : ℕ → Action (Unit {0})
logout _ = done
