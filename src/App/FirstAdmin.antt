-- ===== src/App/FirstAdmin.antt =====
-- The first super admin.
use go_with_me.Base.{
  ◌≤◌, String, true, false, some, ◌∷◌, ◌≡◌, arith, ◌=ₛ◌, =ₛ_iff, ltb, Bool-cases, inl, inr,
}
use go_with_me.Config.{Config}
use go_with_me.Models.Roles.{role_super_admin}
use go_with_me.World.{World, Env, IsUp, Statement, create_user}
use go_with_me.Action.{ok}
use go_with_me.Repository.Users
use go_with_me.Repository.Users.{CreateUserParams, new_user, is_active_super_admin, is_insertable}
use go_with_me.Services.Auth.Bootstrap.{ensure_bootstrap_admin, create_bootstrap_admin}
use go_with_me.App.Table.{admins}
use go_with_me.App.Valid.{IsValid, insert-IsTable}
use go_with_me.App.Admins.{IsManaged}

-- The row of the first admin, for a hash of its password.
abbrev pub first_admin : Config → String → CreateUserParams
first_admin cfg hash = record {
  email = cfg.bootstrap_admin_email;
  name = cfg.bootstrap_admin_name;
  password_hash = hash;
  role = role_super_admin;
}

settled :
    (env : Env) (cfg : Config) (w : World)
    → IsUp env
    → 1 ≤ admins w.users
    → ensure_bootstrap_admin env cfg w ≡ (ok tt, w)
unfolding ensure_bootstrap_admin Users.count_super_admins
settled env cfg w up some_admin =
    let positive : ltb 0 (admins w.users) ≡ true = ground arith in
    ground (arith, up Statement.count_super_admins w)

abbrev with_admin : Env → Config → String → World → World
with_admin env cfg hash w = record w {
  users = new_user (first_admin cfg hash) (env.new_id w) w.now ∷ w.users;
}

creates :
    (env : Env) (cfg : Config) (hash : String) (w : World)
    → IsUp env
    → (cfg.bootstrap_admin_email =ₛ "") ≡ false
    → (cfg.bootstrap_admin_password =ₛ "") ≡ false
    → env.generate_hash w cfg.bootstrap_admin_password ≡ some hash
    → is_insertable (new_user (first_admin cfg hash) (env.new_id w) w.now) w ≡ true
    → ltb 0 (admins w.users) ≡ false
    → ensure_bootstrap_admin env cfg w ≡ (ok tt, with_admin env cfg hash w)
unfolding ensure_bootstrap_admin create_bootstrap_admin Users.count_super_admins Users.create
creates env cfg hash w up email password hashed fits no_admin =
    ground (arith, up Statement.count_super_admins w, up create_user w)

with_admin-IsManaged :
    (env : Env) (cfg : Config) (hash : String) (w : World)
    → IsValid w
    → is_insertable (new_user (first_admin cfg hash) (env.new_id w) w.now) w ≡ true
    → IsManaged (with_admin env cfg hash w)
with_admin-IsManaged env cfg hash w valid fits = record {
  valid = insert-IsTable (first_admin cfg hash) (env.new_id w) w fits valid;
  managed = ground (arith, =ₛ_iff role_super_admin role_super_admin);
}

-- Where the bootstrap settings are filled in, the database answers, the password is hashed and the
-- new row breaks no constraint: `ensure_bootstrap_admin` on a valid table leads to a valid one with
-- an active super admin, and a second call then changes nothing.
pub ensure_bootstrap_admin_lem :
    (env : Env) (cfg : Config) (hash : String) (w : World)
    → IsUp env
    → IsValid w
    → (cfg.bootstrap_admin_email =ₛ "") ≡ false
    → (cfg.bootstrap_admin_password =ₛ "") ≡ false
    → env.generate_hash w cfg.bootstrap_admin_password ≡ some hash
    → is_insertable (new_user (first_admin cfg hash) (env.new_id w) w.now) w ≡ true
    → let w' : World = (ensure_bootstrap_admin env cfg w).1 in
      IsManaged w' × (ensure_bootstrap_admin env cfg w' ≡ (ok tt, w'))
ensure_bootstrap_admin_lem env cfg hash w up valid email password hashed fits =
    elim (Bool-cases (ltb 0 (admins w.users))) [
      | inl more ↦
          let some_admin : 1 ≤ admins w.users = ground arith in
          let same = settled env cfg w up some_admin in
          rw same (record { valid = valid; managed = some_admin }, same)
      | inr no_admin ↦
          let made = creates env cfg hash w up email password hashed fits no_admin in
          let managed = with_admin-IsManaged env cfg hash w valid fits in
          rw made (managed, settled env cfg (with_admin env cfg hash w) up managed.managed)
    ]
