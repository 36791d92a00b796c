-- ===== src/Changes.antt =====
-- What a service call may do to the tables: a sequence of writes, each with the condition on which
-- it is allowed.
pub mod Users
pub mod Resets
pub mod Auth
pub mod Admin
pub mod Invite
use go_with_me.Base.{ℕ, ◌+◌, ◌≤◌, String, true, false, some, List, ◌∷◌, ◌≡◌, ◌⊎◌, find?, count}
use go_with_me.Models.{User, PasswordReset, AuditLog}
use go_with_me.Models.Roles.{is_role}
use go_with_me.World.{World}
use go_with_me.Repository.Users.{
  CreateUserParams, has_id, is_active_super_admin, new_user, is_insertable, update_by_id,
}

-- A change of a row that keeps its keys, never activates it, and leaves a role of the enum.
pub record IsChange (f : User → User) : Type 0 where
  pub id : (u : User) → (f u).id ≡ u.id
  pub email : (u : User) → (f u).email ≡ u.email
  pub inactive : (u : User) → u.is_active ≡ false → (f u).is_active ≡ false
  pub role : (u : User) → is_role u.role ≡ true → is_role (f u).role ≡ true

-- A change after which an active super admin still is one.
pub record IsEdit (f : User → User) : Type 0 where
  pub change : IsChange f
  pub admin : (u : User) → is_active_super_admin u ≡ true → is_active_super_admin (f u) ≡ true

-- An active super admin with this id is not the only one.
abbrev pub Spares : ℕ → World → Type 0
Spares id w =
    (2 ≤ count is_active_super_admin w.users)
    ⊎ ((u : User) → find? (has_id id) w.users ≡ some u → is_active_super_admin u ≡ false)

pub data Write : World → World → Type 0 where
  insert :
      (w : World) (params : CreateUserParams) (id : ℕ)
      → is_insertable (new_user params id w.now) w ≡ true
      → Write w (record w { users = new_user params id w.now ∷ w.users })
  edit : (w : World) (id : ℕ) (f : User → User) → IsEdit f → Write w (update_by_id id f w)
  demote :
      (w : World) (id : ℕ) (f : User → User)
      → IsChange f
      → Spares id w
      → Write w (update_by_id id f w)
  set_resets : (w : World) (rs : List PasswordReset) → Write w (record w { resets = rs })
  set_notified :
      (w : World) (lines : List (String × String)) → Write w (record w { notified = lines })
  add_audit : (w : World) (log : AuditLog) → Write w (record w { audit = log ∷ w.audit })
  wait : (w : World) (time : ℕ) → Write w (record w { now = w.now + time })

-- What a sequence of writes may lead to.
pub data Changes (w : World) : World → Type 0 where
  here : Changes w w
  next : {v u : World} → Changes w v → Write v u → Changes w u

-- An invariant of each write is one of every sequence.
pub Changes-keeps :
    (P : World → Type 0)
    → ((v u : World) → Write v u → P v → P u)
    → (w u : World) → Changes w u
    → P w
    → P u
Changes-keeps P step w u here h = h
Changes-keeps P step w u (next {v = v} c s) h = step v u s (Changes-keeps P step w v c h)
