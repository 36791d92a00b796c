-- ===== src/Services/Auth/Login/Refusals.antt =====
-- What a failed login tells about the account.
use go_with_me.Base.{String, Bool, true, not, Option, some, none, ◌≡◌, arith, find?}
use go_with_me.Base.Text.Normal.{normal-trim_space}
use go_with_me.ApiError.{sentinel, unauthorized}
use go_with_me.Models.{User}
use go_with_me.World.{World, Env, IsUp, find_user_by_email}
use go_with_me.Action.{err}
use go_with_me.Repository.Users
use go_with_me.Repository.Users.{has_email, normal_email}
use go_with_me.Services.Auth.{AuthService}
use go_with_me.Services.Auth.Login.{login, login_found}

-- No user with access has this address.
abbrev pub lacks_access : Option User → Bool
lacks_access none = true
lacks_access (some u) = not u.is_active

module _ (env : Env) (s : AuthService) where
  -- Where the database answers, an address that nobody has and one of a deactivated user are
  -- answered alike, with the 401 of a wrong password, and nothing is written.
  pub refusals_alike :
      (email password : String) (w : World)
      → IsUp env
      → lacks_access (find? (has_email (normal_email email)) w.users) ≡ true
      → login env s email password w ≡ (err (sentinel unauthorized), w)
  unfolding login login_found Users.find_by_email
  refusals_alike email password w up none_active =
      ground (arith, normal-trim_space email, up find_user_by_email w)
