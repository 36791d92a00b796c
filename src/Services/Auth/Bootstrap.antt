-- ===== src/Services/Auth/Bootstrap.antt =====
-- `EnsureBootstrapAdmin`; its log line is left out.
use go_with_me.Base.{◌||◌, ltb, ◌=ₛ◌, if◌then◌else◌}
use go_with_me.ApiError.{plain, wrapped}
use go_with_me.Models.Roles.{role_super_admin}
use go_with_me.Config.{Config}
use go_with_me.World.{Env}
use go_with_me.Action.{Action, gets, or_raise, wrap, done, ◌>>=◌, ◌>>◌}
use go_with_me.Repository.Users

module _ (env : Env) (cfg : Config) where
  unfoldable pub create_bootstrap_admin : Action (Unit {0})
  create_bootstrap_admin = do
    hashed ← gets (λ w. env.generate_hash w cfg.bootstrap_admin_password)
    hash ← or_raise hashed (wrapped "hash bootstrap password" (plain "bcrypt"))
    wrap "create bootstrap admin" (
        Users.create env (record {
          email = cfg.bootstrap_admin_email;
          name = cfg.bootstrap_admin_name;
          password_hash = hash;
          role = role_super_admin;
        }))
    done

  unfoldable pub ensure_bootstrap_admin : Action (Unit {0})
  ensure_bootstrap_admin =
      if cfg.bootstrap_admin_email =ₛ "" || cfg.bootstrap_admin_password =ₛ "" then done else do
        admins ← wrap "count super admins" (Users.count_super_admins env)
        if ltb 0 admins then done else create_bootstrap_admin
