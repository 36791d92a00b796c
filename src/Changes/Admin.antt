-- ===== src/Changes/Admin.antt =====
-- The calls of the user service and `AcceptInvite`, as sequences of writes.
use go_with_me.Base.{
  ℕ, ◌≤◌, String, Bool, false, some, ◌≡◌, ◌⊎◌, inl, inr, arith, find?, count, ◌=ₛ◌, if◌then◌else◌,
  Bool-cases,
}
use go_with_me.Models.{User}
use go_with_me.Models.Roles.{role_super_admin}
use go_with_me.World.{World, Env}
use go_with_me.Action.{ok, Action, done, ◌>>◌}
use go_with_me.Action.Rules.{bind_read}
use go_with_me.Action.Keeps.{Keeps}
use go_with_me.Repository.Users
use go_with_me.Repository.Users.{
  UpdateUserParams, has_id, is_active_super_admin, with_params, find_by_id, count_super_admins,
}
use go_with_me.Repository.Users.Laws.{find_by_id-ok, find_by_id-world}
use go_with_me.Services.UserAdmin
use go_with_me.Services.UserAdmin.{
  demotes, require_two_admins, refuse_existing, update_current, deactivate_current,
}
use go_with_me.Changes.{Spares, Changes}
use go_with_me.Changes.Users.{Allows, update-Changes, deactivate-Changes}

module _ (env : Env) where
  -- The guard of the last super admin reads only, and passes where two are counted.
  guard-world :
      (c : Bool) (message : String) (w : World)
      → ((if c then require_two_admins env message else done) w).1 ≡ w
  unfolding count_super_admins
  guard-world c message w = ground arith

  guard-ok :
      (c : Bool) (message : String) (w : World) {a : Unit {0}}
      → (if c then require_two_admins env message else done) w ≡ (ok a, w)
      → (c ≡ false) ⊎ (2 ≤ count is_active_super_admin w.users)
  unfolding count_super_admins
  guard-ok c message w h = ground arith

  -- What the guard of `update` leaves open, the repository allows.
  update_allowed :
      (id : ℕ) (params : UpdateUserParams) (current : User) (w : World)
      → find? (has_id id) w.users ≡ some current
      → (demotes params.role current ≡ false) ⊎ (2 ≤ count is_active_super_admin w.users)
      → Allows id (with_params params w.now) w
  update_allowed id params current w found (inr two) = inl (inl two)
  update_allowed id params current w found (inl no_demotion) =
      elim (Bool-cases (current.role =ₛ role_super_admin)) [
        | inl super ↦ inr λ u h. ground arith
        | inr other ↦ inl (inr λ u e. ground arith)
      ]

  deactivate_allowed :
      (id : ℕ) (current : User) (w : World)
      → find? (has_id id) w.users ≡ some current
      → ((current.role =ₛ role_super_admin) ≡ false) ⊎ (2 ≤ count is_active_super_admin w.users)
      → Spares id w
  deactivate_allowed id current w found (inr two) = inl two
  deactivate_allowed id current w found (inl other) = inr λ u e. ground arith

  module _ {w₀ : World} where
    -- After a guard that passed, the rest runs in the same world.
    guarded :
        {A : Type 0} (c : Bool) (message : String) (m : Action A) (w : World)
        → Changes w₀ w
        → ((c ≡ false) ⊎ (2 ≤ count is_active_super_admin w.users) → Changes w₀ (m w).1)
        → Changes w₀ (((if c then require_two_admins env message else done) >> m) w).1
    guarded c message m w h k =
        bind_read (Changes w₀) (if c then require_two_admins env message else done) (λ _. m) w
          (guard-world c message w) h (λ _ passed. k (guard-ok c message w passed))

    update_at :
        (id : ℕ) (params : UpdateUserParams) (w : World)
        → Changes w₀ w
        → Changes w₀ (UserAdmin.update env id params w).1
    unfolding UserAdmin.update
    update_at id params w h =
        bind_read (Changes w₀) (find_by_id env id) (update_current env id params) w
          (find_by_id-world env id w) h
          λ current found.
            guarded (demotes params.role current) "cannot change role of the last super admin"
              (Users.update env id params) w h
              λ passed.
                update-Changes env id params w h
                  (update_allowed id params current w (find_by_id-ok env id w found).0 passed)

    deactivate_at :
        (id : ℕ) (w : World) → Changes w₀ w → Changes w₀ (UserAdmin.deactivate env id w).1
    unfolding UserAdmin.deactivate
    deactivate_at id w h =
        bind_read (Changes w₀) (find_by_id env id) (deactivate_current env id) w
          (find_by_id-world env id w) h
          λ current found.
            guarded (current.role =ₛ role_super_admin) "cannot deactivate the last super admin"
              (Users.deactivate env id) w h
              λ passed.
                deactivate-Changes env id w h
                  (deactivate_allowed id current w (find_by_id-ok env id w found).0 passed)

    pub update_user-Changes :
        (id : ℕ) (params : UpdateUserParams) → Keeps (Changes w₀) (UserAdmin.update env id params)
    update_user-Changes id params = record { at = update_at id params }

    pub deactivate_user-Changes : (id : ℕ) → Keeps (Changes w₀) (UserAdmin.deactivate env id)
    deactivate_user-Changes id = record { at = deactivate_at id }
