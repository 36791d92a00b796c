-- ===== src/Bootstrap/Start/FirstAdmin.antt =====
-- The tables that a start leads to.
use go_with_me.Base.{String, true, false, some, List, ◌≡◌, refl, ◌⊎◌, ◌=ₛ◌}
use go_with_me.Config.{Config}
use go_with_me.Config.Load.{ParseUrl, loaded, load}
use go_with_me.World.{Env, IsUp}
use go_with_me.Repository.Users.{new_user, is_insertable}
use go_with_me.Services.Auth.Bootstrap.{ensure_bootstrap_admin}
use go_with_me.App.Valid.{IsValid}
use go_with_me.App.Admins.{IsManaged}
use go_with_me.App.FirstAdmin.{first_admin, ensure_bootstrap_admin_lem}
use go_with_me.Bootstrap.Process.{Process, started}
use go_with_me.Bootstrap.Database.{Drivers}
use go_with_me.Bootstrap.Start.{App, new_with, new_app}
use go_with_me.Http.Routes.{Server}
use go_with_me.Http.Managed.{Event, serve_all, serve_all-IsManaged}
use go_with_me.Bootstrap.Start.Worlds.{new_with-world}

new_app-loaded :
    (d : Drivers) (env : Env) (parse_url : ParseUrl) (parsed : Config ⊎ String) (p : Process)
    {cfg : Config}
    → load parse_url parsed ≡ loaded cfg
    → new_app d env parse_url parsed p ≡ new_with d env cfg p
unfolding new_app
new_app-loaded d env parse_url parsed p usable = rw usable refl

-- A start that succeeds, on usable settings with the address and the password of the first admin,
-- where the database answers, the password is hashed, and the migrations lead to a valid table of
-- users in which the admin's row breaks no constraint: whatever requests then reach the server, there
-- is an active super admin, and the table is valid.
pub new_app-IsManaged :
    (d : Drivers) (env : Env) (cfg : Config) (p : Process) (parse_url : ParseUrl)
    (parsed : Config ⊎ String) {app : App} {q : Process} (hash : String)
    → load parse_url parsed ≡ loaded cfg
    → new_app d env parse_url parsed p ≡ (started app, q)
    → let w = (d.up p.world).1 in
      IsUp env
      → IsValid w
      → (cfg.bootstrap_admin_email =ₛ "") ≡ false
      → (cfg.bootstrap_admin_password =ₛ "") ≡ false
      → env.generate_hash w cfg.bootstrap_admin_password ≡ some hash
      → is_insertable (new_user (first_admin cfg hash) (env.new_id w) w.now) w ≡ true
      → (s : Server) (es : List Event) → IsManaged (serve_all s es q.world)
new_app-IsManaged d env cfg p parse_url parsed {app} {q} hash usable run up valid email password
      hashed fits s es =
    let w = (d.up p.world).1 in
    let there : q.world ≡ (ensure_bootstrap_admin env cfg w).1 =
      rw run at
        (rw (← new_app-loaded d env parse_url parsed p usable) at (new_with-world d env cfg p)) in
    let managed =
      (ensure_bootstrap_admin_lem env cfg hash w up valid email password hashed fits).0 in
    serve_all-IsManaged s es q.world (rw there managed)
