-- ===== src/App/Access.antt =====
-- Users without access, under the requests of `App`.
use go_with_me.Base.{
  ℕ, String, Bool, true, false, not, List, [], ◌∷◌, ◌≡◌, refl, ap, arith, any, some, none, find?,
  update_where, ==_iff, =ₛ_iff, ◌==◌, ◌=ₛ◌,
}
use go_with_me.Config.{Config}
use go_with_me.Models.{User}
use go_with_me.World.{World, Env}
use go_with_me.Repository.Users.{has_id, has_email, new_user, is_insertable}
use go_with_me.Changes.{
  IsChange, Write, insert, edit, demote, set_resets, set_notified, add_audit, wait, Changes-keeps,
}
use go_with_me.App.{Request, serve, run}
use go_with_me.App.Refines.{serve-Changes}

-- The user that the key finds has no access.
abbrev pub is_inactive_in : (User → Bool) → List User → Bool
is_inactive_in key us = elim (find? key us) [ none ↦ false | some u ↦ not u.is_active ]

-- A test of a row by its id or its address: no change of a row changes it, and no new row passes it
-- where an old one does.
pub record IsKey (key : User → Bool) : Type 0 where
  pub stable : (f : User → User) → IsChange f → (u : User) → key (f u) ≡ key u
  pub fresh :
      (u : User) (w : World) → is_insertable u w ≡ true → key u ≡ true → find? key w.users ≡ none

find?-absent : (p : User → Bool) (us : List User) → any p us ≡ false → find? p us ≡ none
find?-absent p [] h = refl
find?-absent p (u ∷ us) h = ground (arith, find?-absent p us)

id_fresh :
    (id : ℕ) (u : User) (w : World)
    → is_insertable u w ≡ true
    → has_id id u ≡ true
    → find? (has_id id) w.users ≡ none
id_fresh id u w fits same =
    rw (← (==_iff u.id id).0 same) (find?-absent (has_id u.id) w.users (ground arith))

email_fresh :
    (email : String) (u : User) (w : World)
    → is_insertable u w ≡ true
    → has_email email u ≡ true
    → find? (has_email email) w.users ≡ none
email_fresh email u w fits same =
    rw (← (=ₛ_iff u.email email).0 same) (find?-absent (has_email u.email) w.users (ground arith))

pub has_id-IsKey : (id : ℕ) → IsKey (has_id id)
has_id-IsKey id = record { stable = λ f c u. ap (λ k. k == id) (c.id u); fresh = id_fresh id }

pub has_email-IsKey : (email : String) → IsKey (has_email email)
has_email-IsKey email = record {
  stable = λ f c u. ap (λ e. e =ₛ email) (c.email u);
  fresh = email_fresh email;
}

module _ (key : User → Bool) (k : IsKey key) where
  update-inactive :
      (f : User → User)
      → IsChange f
      → (id : ℕ) (us : List User) → is_inactive_in key us ≡ true
      → is_inactive_in key (update_where (has_id id) f us) ≡ true
  update-inactive f c id [] h = h
  update-inactive f c id (u ∷ us) h =
      ground (arith, k.stable f c u, c.inactive u, update-inactive f c id us)

  insert-inactive :
      (u : User) (w : World)
      → is_insertable u w ≡ true
      → is_inactive_in key w.users ≡ true
      → is_inactive_in key (u ∷ w.users) ≡ true
  insert-inactive u w fits h = ground (arith, k.fresh u w fits)

  pub Write-inactive :
      (v u : World)
      → Write v u
      → is_inactive_in key v.users ≡ true
      → is_inactive_in key u.users ≡ true
  Write-inactive v u (insert w params id fits) h =
      insert-inactive (new_user params id w.now) w fits h
  Write-inactive v u (edit w id f e) h = update-inactive f e.change id w.users h
  Write-inactive v u (demote w id f c spared) h = update-inactive f c id w.users h
  Write-inactive v u (set_resets w rs) h = h
  Write-inactive v u (set_notified w lines) h = h
  Write-inactive v u (add_audit w log) h = h
  Write-inactive v u (wait w time) h = h

  serve-inactive :
      (env : Env) (cfg : Config) (r : Request) (w : World)
      → is_inactive_in key w.users ≡ true
      → is_inactive_in key (serve env cfg r w).users ≡ true
  serve-inactive env cfg r w =
      Changes-keeps (λ w. is_inactive_in key w.users ≡ true) Write-inactive w (serve env cfg r w)
        (serve-Changes env cfg r w)

-- A user found by id or address that has no access has none after any requests: there is no way back
-- from a deactivation, and none out of the state in which an invitation leaves the user.
pub run-inactive :
    (key : User → Bool)
    → IsKey key
    → (env : Env) (cfg : Config) (rs : List Request) (w : World) → is_inactive_in key w.users ≡ true
    → is_inactive_in key (run env cfg rs w).users ≡ true
unfolding run
run-inactive key k env cfg [] w h = h
run-inactive key k env cfg (r ∷ rs) w h =
    run-inactive key k env cfg rs (serve env cfg r w) (serve-inactive key k env cfg r w h)
