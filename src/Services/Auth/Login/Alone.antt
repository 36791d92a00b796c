-- ===== src/Services/Auth/Login/Alone.antt =====
-- One call by itself takes the steps of `Login` at once to the world that `Login` leaves.
use go_with_me.Base.{
  ◌+◌, ◌*◌, ◌<◌, String, true, false, some, [], ◌∷◌, ◌≡◌, refl, find?, leb, Bool-cases, inl, inr,
}
use go_with_me.Models.{User, is_locked}
use go_with_me.World.{World, Env, IsUp, minute}
use go_with_me.Action.{ok}
use go_with_me.Repository.Users.{has_id, int4_max, with_failure, update_by_id}
use go_with_me.Repository.Users.Laws.{
  find?-update, find_by_id-up, incr_failed_attempts-up, lock_until-up,
}
use go_with_me.Services.Auth.{AuthService}
use go_with_me.Services.Auth.Login.Lockout.{failed_world}
use go_with_me.Services.Auth.Login.AtOnce.{
  answered, failing, recounting, after_reread, fails, counts, rereads, locks, Reach, start, later,
}

module _ (env : Env) (s : AuthService) (up : IsUp env) (u : User) (w : World) where
  abbrev counted_world : World
  counted_world = update_by_id u.id (with_failure w.now) w

  first_steps :
      (password : String)
      → find? (has_id u.id) w.users ≡ some u
      → u.is_active ≡ true
      → is_locked u w.now ≡ false
      → env.compare_hash u.password_hash password ≡ false
      → u.failed_attempts < int4_max
      → Reach env s u.id w 1 (record {
        world = counted_world;
        stages = after_reread env s u.id (ok (with_failure w.now u)) w.now ∷ [];
      })
  first_steps password row active unlocked wrong small =
      let written = incr_failed_attempts-up env up u.id w row small in
      let again =
        find_by_id-up env up u.id counted_world
          (find?-update (has_id u.id) (with_failure w.now) (λ x. refl) w.users row) in
      let failed : Reach env s u.id w 1 (record { world = w; stages = failing ∷ [] }) =
        later start (fails [] [] u password refl row active unlocked wrong refl) in
      let counted_once : Reach env s u.id w 1
          (record { world = counted_world; stages = recounting ∷ [] }) =
        later failed (counts [] [] refl (rw written refl)) in
      later counted_once (rereads [] [] refl (rw again refl))

  -- A wrong password for an active user who is not locked.
  pub login_alone :
      (password : String)
      → find? (has_id u.id) w.users ≡ some u
      → u.is_active ≡ true
      → is_locked u w.now ≡ false
      → env.compare_hash u.password_hash password ≡ false
      → u.failed_attempts < int4_max
      → Reach env s u.id w 1 (record { world = failed_world env s u w; stages = answered ∷ [] })
  login_alone password row active unlocked wrong small =
      let steps = first_steps password row active unlocked wrong small in
      elim (Bool-cases (leb s.cfg.max_failed_attempts (u.failed_attempts + 1))) [
        | inl limit ↦ rw limit (
            later (rw limit at steps) (
              locks [] [] (w.now + 30 * minute) refl
                (rw (lock_until-up env up u.id (w.now + 30 * minute) counted_world) refl)))
        | inr below ↦ rw below (rw below at steps)
      ]
