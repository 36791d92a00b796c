-- ===== src/App/Race/Demotions.antt =====
-- Two calls of `Update` of internal/services/user_service.go at once, each to demote a super admin: the
-- same gap between the guard and the UPDATE.
use go_with_me.Base.{
  ℕ, ◌≢◌, String, true, false, some, none, ◌≡◌, refl, arith, find?, ◌=ₛ◌, if◌then◌else◌,
}
use go_with_me.Models.{User}
use go_with_me.Models.Roles.{role_super_admin, is_role}
use go_with_me.World.{World, Env, IsUp, Statement, update_user}
use go_with_me.Action.{Action, ok, done, ◌>>=◌, ◌>>◌}
use go_with_me.Repository.Users
use go_with_me.Repository.Users.{
  has_id, is_active_super_admin, with_params, update_by_id, UpdateUserParams,
}
use go_with_me.Repository.Users.Laws.{find_by_id-up}
use go_with_me.Services.UserAdmin
use go_with_me.Services.UserAdmin.{require_two_admins, demotes}
use go_with_me.Changes.Users.{with_params-IsChange, update-world, update_row-world}
use go_with_me.App.Table.{admins}
use go_with_me.App.Valid.{IsValid}
use go_with_me.App.Race.{IsLoss, none-left, bind_twice}

-- What `Update` does before its UPDATE.
abbrev pub update_guard_role : Env → UpdateUserParams → User → Action (Unit {0})
update_guard_role env params u =
    if demotes params.role u
    then require_two_admins env "cannot change role of the last super admin"
    else done

abbrev pub update_guard : Env → ℕ → UpdateUserParams → Action (Unit {0})
update_guard env id params = do u ← Users.find_by_id env id; update_guard_role env params u

module _ (env : Env) where
  update-split :
      (id : ℕ) (params : UpdateUserParams) (w : World)
      → UserAdmin.update env id params w
        ≡ (do update_guard env id params; Users.update env id params) w
  unfolding UserAdmin.update
  update-split id params w =
      bind_twice (update_guard_role env params) (Users.update env id params)
        (Users.find_by_id env id w)

module _ (env : Env) (up : IsUp env) (role : String) where
  -- The body of the request names this role alone.
  abbrev demotion : UpdateUserParams
  demotion = record { name = none; role = some role }

  demotion-IsLoss :
      (now : ℕ) → (role =ₛ role_super_admin) ≡ false → IsLoss (with_params demotion now)
  demotion-IsLoss now other = record { id = λ u. refl; lost = λ u. ground arith }

  update_guard-passes :
      (id : ℕ) (u : User) (w : World)
      → find? (has_id id) w.users ≡ some u
      → admins w.users ≡ 2
      → update_guard env id demotion w ≡ (ok tt, w)
  unfolding Users.count_super_admins
  update_guard-passes id u w found two =
      rw (find_by_id-up env up id w found) (ground (arith, up Statement.count_super_admins w))

  demoted-world :
      (id : ℕ) (w : World)
      → is_role role ≡ true
      → (Users.update env id demotion w).1 ≡ update_by_id id (with_params demotion w.now) w
  demoted-world id w valid =
      rw
        (
          update-world env id demotion w,
          update_row-world env id demotion w,
          up update_user w,
          valid,
        )
        refl

  -- The guards of two calls that demote the two last super admins both pass, and when both UPDATEs
  -- follow, no active super admin is left.
  pub demotions_lose_admins :
      (a b : ℕ) (u v : User) (w : World)
      → IsValid w
      → is_role role ≡ true
      → (role =ₛ role_super_admin) ≡ false
      → admins w.users ≡ 2
      → a ≢ b
      → find? (has_id a) w.users ≡ some u
      → is_active_super_admin u ≡ true
      → find? (has_id b) w.users ≡ some v
      → is_active_super_admin v ≡ true
      → let w' : World = (Users.update env a demotion w).1 in
        (UserAdmin.update env a demotion w
          ≡ (do update_guard env a demotion; Users.update env a demotion) w)
        × (update_guard env a demotion w ≡ (ok tt, w))
        × (update_guard env b demotion w ≡ (ok tt, w))
        × (admins (Users.update env b demotion w').1.users ≡ 0)
  demotions_lose_admins a b u v w valid known other two differ found_a super_a found_b super_b =
      let f = with_params demotion w.now in
      let w₁ : World = update_by_id a f w in
      (
        update-split env a demotion w,
        update_guard-passes a u w found_a two,
        update_guard-passes b v w found_b two,
        rw (demoted-world a w known, demoted-world b w₁ known)
            (none-left f (with_params-IsChange demotion w.now known) (demotion-IsLoss w.now other) a
              b u v w.users valid two differ found_a super_a found_b super_b),
      )
