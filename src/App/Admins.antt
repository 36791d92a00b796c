-- ===== src/App/Admins.antt =====
-- The active super admins, under the requests of `App`.
use go_with_me.Base.{ℕ, ◌≤◌, List, [], ◌∷◌, inl, inr, arith}
use go_with_me.Config.{Config}
use go_with_me.Models.{User}
use go_with_me.World.{World, Env}
use go_with_me.Repository.Users.{update_by_id}
use go_with_me.Changes.{
  Spares, Write, insert, edit, demote, set_resets, set_notified, add_audit, wait, Changes-keeps,
}
use go_with_me.App.{Request, serve, run}
use go_with_me.App.Refines.{serve-Changes}
use go_with_me.App.Table.{admins, admins-edit, admins-update, admins-update_other}
use go_with_me.App.Valid.{IsValid, Write-IsValid}

-- A valid table with an active super admin.
pub record IsManaged (w : World) : Type 0 where
  pub valid : IsValid w
  pub managed : 1 ≤ admins w.users

demote-Spares :
    (w : World) (id : ℕ) (f : User → User)
    → Spares id w
    → IsManaged w
    → 1 ≤ admins (update_by_id id f w).users
demote-Spares w id f (inl two) m = omega (arith, admins-update f id w.users m.valid)
demote-Spares w id f (inr other) m =
    omega (arith, admins-update_other f id w.users m.valid other, m.managed)

Write-managed : (v u : World) → Write v u → IsManaged v → 1 ≤ admins u.users
Write-managed v u (insert w params id fits) m = omega (arith, m.managed)
Write-managed v u (edit w id f e) m = omega (arith, admins-edit f e id w.users, m.managed)
Write-managed v u (demote w id f c spared) m = demote-Spares w id f spared m
Write-managed v u (set_resets w rs) m = m.managed
Write-managed v u (set_notified w lines) m = m.managed
Write-managed v u (add_audit w log) m = m.managed
Write-managed v u (wait w time) m = m.managed

pub Write-IsManaged : (v u : World) → Write v u → IsManaged v → IsManaged u
Write-IsManaged v u s m = record {
  valid = Write-IsValid v u s m.valid;
  managed = Write-managed v u s m;
}

pub serve-IsManaged :
    (env : Env) (cfg : Config) (r : Request) (w : World)
    → IsManaged w
    → IsManaged (serve env cfg r w)
serve-IsManaged env cfg r w =
    Changes-keeps IsManaged Write-IsManaged w (serve env cfg r w) (serve-Changes env cfg r w)

-- From a valid table with an active super admin, any requests one after the other lead to a valid
-- table with an active super admin.
pub run-IsManaged :
    (env : Env) (cfg : Config) (rs : List Request) (w : World)
    → IsManaged w
    → IsManaged (run env cfg rs w)
unfolding run
run-IsManaged env cfg [] w m = m
run-IsManaged env cfg (r ∷ rs) w m =
    run-IsManaged env cfg rs (serve env cfg r w) (serve-IsManaged env cfg r w m)
