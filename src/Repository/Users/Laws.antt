-- ===== src/Repository/Users/Laws.antt =====
-- What each statement of the user repository has done when it succeeds.
use go_with_me.Base.{
  ℕ, ◌<◌, String, Bool, true, some, ◌≡◌, arith, find?, update_where, List, [], ◌∷◌,
}
use go_with_me.Models.{User}
use go_with_me.World.{World, Env, IsUp, Statement, find_user_by_id, find_user_by_email}
use go_with_me.Action.{ok}
use go_with_me.Repository.Users.{
  find_by_id, find_by_email, has_id, has_email, normal_email, incr_failed_attempts, lock_until,
  clear_lock, update_by_id, with_failure, with_lock, without_lock, int4_max,
}

-- A row that a key finds, after an update of the row with its id.
pub find?-update :
    (key : User → Bool) (f : User → User)
    → ((x : User) → key (f x) ≡ key x)
    → (us : List User) {u : User} → find? key us ≡ some u
    → find? key (update_where (has_id u.id) f us) ≡ some (f u)
find?-update key f stable [] h = cc
find?-update key f stable (x ∷ us) {u} h =
    ground (arith, stable x, find?-update key f stable us {u = u})

pub find?-passes : (p : User → Bool) (us : List User) {u : User} → find? p us ≡ some u → p u ≡ true
find?-passes p [] h = cc
find?-passes p (x ∷ us) {u} h = ground (arith, find?-passes p us {u = u})

module _ (env : Env) where
  pub find_by_id-ok :
      (id : ℕ) (w : World) {u : User} {w' : World}
      → find_by_id env id w ≡ (ok u, w')
      → (find? (has_id id) w.users ≡ some u) × (w' ≡ w)
  unfolding find_by_id
  find_by_id-ok id w h = ground arith

  pub find_by_email-ok :
      (email : String) (w : World) {u : User} {w' : World}
      → find_by_email env email w ≡ (ok u, w')
      → (find? (has_email (normal_email email)) w.users ≡ some u) × (w' ≡ w)
  unfolding find_by_email
  find_by_email-ok id w h = ground arith

  pub find_by_id-world : (id : ℕ) (w : World) → (find_by_id env id w).1 ≡ w
  unfolding find_by_id
  find_by_id-world id w = ground arith

-- Each statement, where the database answers.
module _ (env : Env) (up : IsUp env) where
  pub find_by_id-up :
      (id : ℕ) (w : World) {u : User}
      → find? (has_id id) w.users ≡ some u
      → find_by_id env id w ≡ (ok u, w)
  unfolding find_by_id
  find_by_id-up id w row = ground (arith, up find_user_by_id w)

  pub find_by_email-up :
      (email : String) (w : World) {u : User}
      → find? (has_email (normal_email email)) w.users ≡ some u
      → find_by_email env email w ≡ (ok u, w)
  unfolding find_by_email
  find_by_email-up email w row = ground (arith, up find_user_by_email w)

  pub incr_failed_attempts-up :
      (id : ℕ) (w : World) {u : User}
      → find? (has_id id) w.users ≡ some u
      → u.failed_attempts < int4_max
      → incr_failed_attempts env id w ≡ (ok tt, update_by_id id (with_failure w.now) w)
  unfolding incr_failed_attempts
  incr_failed_attempts-up id w row small = ground (arith, up Statement.incr_failed_attempts w)

  pub lock_until-up :
      (id until : ℕ) (w : World)
      → lock_until env id until w ≡ (ok tt, update_by_id id (with_lock until w.now) w)
  unfolding lock_until
  lock_until-up id until w = ground (arith, up Statement.lock_until w)

  pub clear_lock-up :
      (id : ℕ) (w : World) → clear_lock env id w ≡ (ok tt, update_by_id id (without_lock w.now) w)
  unfolding clear_lock
  clear_lock-up id w = ground (arith, up Statement.clear_lock w)
