-- ===== src/App/Valid.antt =====
-- The constraints of the table `users`, under the requests of `App`.
use go_with_me.Base.{ℕ, true, List, [], ◌∷◌, ◌≡◌, arith}
use go_with_me.Base.Text.Normal.{normal_idem}
use go_with_me.Config.{Config}
use go_with_me.World.{World, Env}
use go_with_me.Repository.Users.{CreateUserParams, new_user, is_insertable}
use go_with_me.Changes.{
  Write, insert, edit, demote, set_resets, set_notified, add_audit, wait, Changes-keeps,
}
use go_with_me.App.{Request, serve, run}
use go_with_me.App.Refines.{serve-Changes}
use go_with_me.App.Table.{IsTable, update-IsTable}

abbrev pub IsValid : World → Type 0
IsValid w = IsTable w.users

pub insert-IsTable :
    (params : CreateUserParams) (id : ℕ) (w : World)
    → is_insertable (new_user params id w.now) w ≡ true
    → IsTable w.users
    → IsTable (new_user params id w.now ∷ w.users)
insert-IsTable params id w fits t = ground (arith, normal_idem params.email)

pub Write-IsValid : (v u : World) → Write v u → IsValid v → IsValid u
Write-IsValid v u (insert w params id fits) t = insert-IsTable params id w fits t
Write-IsValid v u (edit w id f e) t = update-IsTable f e.change id w.users t
Write-IsValid v u (demote w id f c spared) t = update-IsTable f c id w.users t
Write-IsValid v u (set_resets w rs) t = t
Write-IsValid v u (set_notified w lines) t = t
Write-IsValid v u (add_audit w log) t = t
Write-IsValid v u (wait w time) t = t

pub serve-IsValid :
    (env : Env) (cfg : Config) (r : Request) (w : World) → IsValid w → IsValid (serve env cfg r w)
serve-IsValid env cfg r w =
    Changes-keeps IsValid Write-IsValid w (serve env cfg r w) (serve-Changes env cfg r w)

-- From a valid table, after any requests ids and addresses are unique, addresses are stored in
-- lower case with no space around them, and every role is one of the five.
pub run-IsValid :
    (env : Env) (cfg : Config) (rs : List Request) (w : World)
    → IsValid w
    → IsValid (run env cfg rs w)
unfolding run
run-IsValid env cfg [] w t = t
run-IsValid env cfg (r ∷ rs) w t =
    run-IsValid env cfg rs (serve env cfg r w) (serve-IsValid env cfg r w t)
