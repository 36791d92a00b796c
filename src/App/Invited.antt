-- ===== src/App/Invited.antt =====
-- What becomes of an invited user.
use go_with_me.Base.{String, Bool, true, some, List, ◌≡◌, refl, arith, find?, =ₛ_iff, ◌=ₛ◌}
use go_with_me.Base.Text.Normal.{normal_idem}
use go_with_me.Config.{Config}
use go_with_me.Models.{User, UserRole}
use go_with_me.World.{World, Env}
use go_with_me.Action.{ok, wrap, raise_if, ◌>>◌}
use go_with_me.Models.Roles.{role_super_admin}
use go_with_me.Action.Rules.{>>=-ok}
use go_with_me.Repository.Users
use go_with_me.Repository.Users.{
  has_id, has_email, normal_email, new_user, update_by_id, without_access,
}
use go_with_me.Repository.Users.Laws.{find?-update}
use go_with_me.Token.{issue_purpose_token}
use go_with_me.Services.Auth.{AuthService, LoginResult, wired_auth_service}
use go_with_me.Services.Auth.Login.{login}
use go_with_me.Services.Auth.Login.Sound.{login_sound}
use go_with_me.Services.UserAdmin.{
  invite, invite_new, issue_invite, invited_params, require_unused, no_super_admin, email_required,
  invite_member,
}
use go_with_me.App.{Request, run}
use go_with_me.App.Access.{is_inactive_in, run-inactive, has_email-IsKey}

-- A user without access does not log in.
no_login :
    (env : Env) (s : AuthService) (email password : String) (w : World) {r : LoginResult}
    {v : World}
    → is_inactive_in (has_email (normal_email email)) w.users ≡ true
    → ¬ (login env s email password w ≡ (ok r, v))
no_login env s email password w inactive h =
    let (u, may, challenge) = login_sound env s email password w h in
    ground (arith, may.found, may.active)

create-found :
    (env : Env) (email name message : String) (role : UserRole) (w : World) {u : User} {v : World}
    → wrap message (Users.create env (invited_params email name role)) w ≡ (ok u, v)
    → (find? (has_email (normal_email email)) v.users ≡ some u)
unfolding Users.create
create-found env email name message role w h =
    ground (arith, normal_idem email, =ₛ_iff (normal_email email) (normal_email email))

issue_invite-inactive :
    (env : Env) (cfg : Config) (key : User → Bool) (u : User) (w : World) {token : String}
    {w' : World}
    → ((x : User) → key (without_access w.now x) ≡ key x)
    → find? key w.users ≡ some u
    → issue_invite env cfg u w ≡ (ok token, w')
    → is_inactive_in key w'.users ≡ true
unfolding issue_invite Users.deactivate issue_purpose_token
issue_invite-inactive env cfg key u w stable found h =
    ground (arith, find?-update key (without_access w.now) stable w.users found)

-- An invitation that succeeds leaves the user without access.
invite-inactive :
    (env : Env) (cfg : Config) (email name : String) (role : UserRole) (w : World) {token : String}
    {w' : World}
    → invite env cfg email name role w ≡ (ok token, w')
    → is_inactive_in (has_email (normal_email email)) w'.users ≡ true
unfolding invite invite_new
invite-inactive env cfg email name role w h =
    let (_, w₁, _, h₁) =
      >>=-ok (raise_if (role =ₛ role_super_admin) no_super_admin)
        (λ _. invite_member env cfg email name role) h in
    let (_, w₂, _, h₂) =
      >>=-ok (raise_if (normal_email email =ₛ "") email_required)
        (λ _. require_unused env email >> invite_new env cfg email name role) h₁ in
    let (_, w₃, _, h₃) =
      >>=-ok (require_unused env email) (λ _. invite_new env cfg email name role) h₂ in
    let (u, w₄, created, h₄) =
      >>=-ok (wrap "create invited user" (Users.create env (invited_params email name role)))
        (issue_invite env cfg) h₃ in
    issue_invite-inactive env cfg (has_email (normal_email email)) u w₄ (λ _. refl)
      (create-found env email name "create invited user" role w₃ created) h₄

-- An invited user never logs in: not with any password, and whatever requests come after the
-- invitation, its acceptance among them.
pub invited_locked_out :
    (env : Env) (cfg : Config) (email name : String) (role : UserRole) (w : World) {token : String}
    {w' : World}
    → invite env cfg email name role w ≡ (ok token, w')
    → (rs : List Request) (password : String) (r : LoginResult) (v : World)
    → ¬ (login env (wired_auth_service cfg) email password (run env cfg rs w') ≡ (ok r, v))
invited_locked_out env cfg email name role w {w' = w'} h rs password r v =
    no_login env (wired_auth_service cfg) email password (run env cfg rs w') (
      run-inactive (has_email (normal_email email)) (has_email-IsKey (normal_email email)) env cfg
        rs w' (invite-inactive env cfg email name role w h))
