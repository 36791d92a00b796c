-- ===== src/Changes/Invite.antt =====
-- The invitation and its acceptance, as sequences of writes.
use go_with_me.Base.{
  ℕ, String, true, false, some, none, ◌≡◌, inl, inr, arith, find?, ◌=ₛ◌, Bool-cases,
}
use go_with_me.Models.{User, UserRole}
use go_with_me.Models.Roles.{role_super_admin}
use go_with_me.Config.{Config}
use go_with_me.World.{World, Env}
use go_with_me.Action.{Result, ok, err, wrap, raise_if, ◌>>◌}
use go_with_me.Action.Rules.{bind_then}
use go_with_me.Action.Keeps.{Keeps, Keeps-map_error, Keeps-then, Keeps-raise_if, keeps_rules}
use go_with_me.Token.{issue_purpose_token}
use go_with_me.Repository.Users
use go_with_me.Repository.Users.{has_id, is_active_super_admin, with_params}
use go_with_me.Services.Auth.{AuthService}
use go_with_me.Services.Auth.Invite.{accept_invite}
use go_with_me.Services.UserAdmin.{
  no_super_admin, email_required, require_unused, invite_member, invited_params, issue_invite,
  invite_new, invite, refuse_existing,
}
use go_with_me.Changes.{Changes}
use go_with_me.Changes.Users.{
  update-Changes, deactivate-Changes, create-Changes, clear_lock-Changes, update_password-Changes,
  find_by_email-Keeps,
}
use go_with_me.Changes.Auth.{token_rules}

created :
    (env : Env) (params : Users.CreateUserParams) (message : String) (w : World) {u : User}
    {v : World}
    → wrap message (Users.create env params) w ≡ (ok u, v)
    → (find? (has_id u.id) v.users ≡ some u) × (u.role ≡ params.role)
unfolding Users.create
created env params message w h = ground arith

refuse_existing-Keeps : {P : World → Type 0} (found : Result User) → Keeps P (refuse_existing found)
refuse_existing-Keeps (ok u) = search keeps_rules
refuse_existing-Keeps (err e) = search keeps_rules

require_unused-Keeps :
    (env : Env) {P : World → Type 0} (email : String) → Keeps P (require_unused env email)
unfolding require_unused
require_unused-Keeps env email =
    search (keeps_rules, find_by_email-Keeps, refuse_existing-Keeps) depth 9

-- Of the calls after the creation only the deactivation writes.
issue_invite-world :
    (env : Env) (cfg : Config) (u : User) (w : World)
    → (issue_invite env cfg u w).1 ≡ (Users.deactivate env u.id w).1
unfolding issue_invite issue_purpose_token
issue_invite-world env cfg u w = ground arith

invite_super-world :
    (env : Env) (cfg : Config) (email name : String) (role : UserRole) (w : World)
    → (role =ₛ role_super_admin) ≡ true
    → (invite env cfg email name role w).1 ≡ w
unfolding invite
invite_super-world env cfg email name role w super = rw super

module _ (env : Env) {w₀ : World} where
  rename-Changes :
      (id : ℕ) (name : String)
      → Keeps (Changes w₀) (Users.update env id (record { name = some name; role = none }))
  rename-Changes id name = record { at = λ w h. update-Changes env id _ w h (inr λ u admin. admin) }

  pub accept_invite-Changes :
      (s : AuthService) (token name password : String)
      → Keeps (Changes w₀) (accept_invite env s token name password)
  unfolding accept_invite
  accept_invite-Changes s token name password =
      search (token_rules, rename-Changes, update_password-Changes, clear_lock-Changes) depth 24

  invite_new-Changes :
      (cfg : Config) (email name : String) (role : UserRole)
      → (role =ₛ role_super_admin) ≡ false
      → Keeps (Changes w₀) (invite_new env cfg email name role)
  unfolding invite_new
  invite_new-Changes cfg email name role plain_role = record {
    at = λ w h.
        bind_then (Changes w₀)
          (wrap "create invited user" (Users.create env (invited_params email name role)))
          (issue_invite env cfg) w
          ((Keeps-map_error _ _ (create-Changes env (invited_params email name role))).at w h)
          λ u v made h'.
            let (row, same) = created env _ _ w made in
            rw (issue_invite-world env cfg u v)
              (deactivate-Changes env u.id v h' (inr λ u' e. ground arith));
  }

  invite_plain-Changes :
      (cfg : Config) (email name : String) (role : UserRole)
      → (role =ₛ role_super_admin) ≡ false
      → Keeps (Changes w₀) (invite env cfg email name role)
  unfolding invite
  invite_plain-Changes cfg email name role plain_role =
      Keeps-then (raise_if (role =ₛ role_super_admin) no_super_admin)
        (invite_member env cfg email name role) (Keeps-raise_if _ _)
        (Keeps-then (raise_if (Users.normal_email email =ₛ "") email_required)
          (require_unused env email >> invite_new env cfg email name role) (Keeps-raise_if _ _)
          (Keeps-then (require_unused env email) (invite_new env cfg email name role)
            (require_unused-Keeps env email) (invite_new-Changes cfg email name role plain_role)))

  pub invite-Changes :
      (cfg : Config) (email name : String) (role : UserRole)
      → Keeps (Changes w₀) (invite env cfg email name role)
  invite-Changes cfg email name role = elim (Bool-cases (role =ₛ role_super_admin)) [
    | inl super ↦ record { at = λ w h. rw (invite_super-world env cfg email name role w super) h }
    | inr other ↦ invite_plain-Changes cfg email name role other
  ]
