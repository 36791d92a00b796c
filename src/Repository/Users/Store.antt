-- ===== src/Repository/Users/Store.antt =====
-- The abstract view of the user repository: a store that finds a user by its id. What order the rows of
-- the table have is forgotten.
use go_with_me.Base.{
  ℕ, String, Bool, ◌&&◌, not, Option, none, some, List, [], ◌∷◌, ◌≡◌, refl, ap, arith, ◌==◌, ==_iff,
  if◌then◌else◌, any, find?, update_where, Bool-cases, inl, inr,
}
use go_with_me.ApiError.{sentinel, not_found, plain, wrapped}
use go_with_me.Models.{User}
use go_with_me.World.{World, Env, IsUp, Statement, find_user_by_id, update_user}
use go_with_me.Action.{Action, Result, ok, err, done, ◌>>◌}
use go_with_me.Repository.Sql.{enum_error}
use go_with_me.Repository.Users
use go_with_me.Repository.Users.{
  UpdateUserParams, has_id, is_full, is_none, role_fits, update_by_id, with_params, with_password,
  with_failure, with_lock, without_lock, with_totp, without_access, find_by_id, update_row,
}

abbrev pub Store : Type 0
Store = ℕ → Option User

abbrev pub store_of : World → Store
store_of w id = find? (has_id id) w.users

-- The writes that the repository has for a user that is there.
pub data Write : Type 0 where
  updates : ℕ → UpdateUserParams → Write
  sets_password : ℕ → String → Write
  counts_failure clears_lock deactivates : ℕ → Write
  locks_until : ℕ → ℕ → Write
  sets_totp : ℕ → String → Bool → Write

unfoldable pub run : Env → Write → Action (Unit {0})
run env (updates id p) = Users.update env id p >> done
run env (sets_password id hash) = Users.update_password env id hash
run env (counts_failure id) = Users.incr_failed_attempts env id
run env (clears_lock id) = Users.clear_lock env id
run env (deactivates id) = Users.deactivate env id
run env (locks_until id until) = Users.lock_until env id until
run env (sets_totp id secret enabled) = Users.set_totp env id secret enabled

abbrev map_user : (User → User) → Option User → Option User
map_user f none = none
map_user f (some u) = some (f u)

-- The user under this id is changed, and no other.
abbrev pub put : ℕ → (User → User) → Store → Store
put id f m k = if k == id then map_user f (m k) else m k

abbrev found : Option User → Result (Unit {0})
found none = err (sentinel not_found)
found (some u) = ok tt

-- What a write does to the store, at a time.
unfoldable pub write : Write → ℕ → Store → Result (Unit {0}) × Store
write (updates id p) now m =
    if is_none p.name && is_none p.role
    then (found (m id), m)
    else if role_fits p.role
    then (found (m id), put id (with_params p now) m)
    else (err (wrapped "update user" enum_error), m)
write (sets_password id hash) now m = (found (m id), put id (with_password hash now) m)
write (counts_failure id) now m =
    if is_full (m id)
    then (err (plain "integer out of range"), m)
    else (ok tt, put id (with_failure now) m)
write (clears_lock id) now m = (ok tt, put id (without_lock now) m)
write (deactivates id) now m = (found (m id), put id (without_access now) m)
write (locks_until id until) now m = (ok tt, put id (with_lock until now) m)
write (sets_totp id secret enabled) now m = (ok tt, put id (with_totp secret enabled now) m)

-- A sequence of writes, with the answer of each.
abbrev pub run_writes : Env → List Write → World → List (Result (Unit {0})) × World
run_writes env [] w = ([], w)
run_writes env (c ∷ cs) w =
    let (answers, w') = run_writes env cs (run env c w).1 in ((run env c w).0 ∷ answers, w')

abbrev pub put_writes : List Write → ℕ → Store → List (Result (Unit {0})) × Store
put_writes [] now m = ([], m)
put_writes (c ∷ cs) now m =
    let (answers, m') = put_writes cs now (write c now m).1 in ((write c now m).0 ∷ answers, m')

find?-update_where :
    (id k : ℕ) (f : User → User)
    → ((u : User) → (f u).id ≡ u.id)
    → (us : List User)
    → find? (has_id k) (update_where (has_id id) f us)
      ≡ (if k == id then map_user f (find? (has_id k) us) else find? (has_id k) us)
find?-update_where id k f same [] = ground arith
find?-update_where id k f same (u ∷ us) =
    ground
      (arith, same u, find?-update_where id k f same us, ==_iff k id, ==_iff u.id id, ==_iff u.id k)

store_of-put :
    (id : ℕ) (f : User → User) (w : World)
    → ((u : User) → (f u).id ≡ u.id)
    → store_of (update_by_id id f w) ≡ put id f (store_of w)
store_of-put id f w same i k = find?-update_where id k f same w.users i

any-found : (id : ℕ) (us : List User) → any (has_id id) us ≡ not (is_none (find? (has_id id) us))
any-found id [] = refl
any-found id (u ∷ us) = ground (arith, any-found id us)

same_id : (p : UpdateUserParams) (now : ℕ) (u : User) → (with_params p now u).id ≡ u.id
same_id p now u = ground arith

module _ (env : Env) (up : IsUp env) where
  updates-write :
      (id : ℕ) (p : UpdateUserParams) (w : World)
      → let c : Write = updates id p in
        ((run env c w).0 ≡ (write c w.now (store_of w)).0)
        × (store_of (run env c w).1 ≡ (write c w.now (store_of w)).1)
  unfolding run write Users.update find_by_id update_row
  updates-write id p w =
      let row = store_of-put id (with_params p w.now) w (same_id p w.now) in
      let at_id = ap (λ m. m id) row in
      elim (Bool-cases (is_none p.name && is_none p.role)) [
        | inl nothing ↦ (ground (arith, up find_user_by_id w), ground (arith, up find_user_by_id w))
        | inr something ↦ elim (Bool-cases (role_fits p.role)) [
          | inl fits ↦ (
            ground (arith, up update_user w, at_id),
            ground (arith, up update_user w, row, at_id),
          )
          | inr unfit ↦ (ground (arith, up update_user w), ground (arith, up update_user w))
        ]
      ]

  run-write :
      (c : Write) (w : World)
      → ((run env c w).0 ≡ (write c w.now (store_of w)).0)
        × (store_of (run env c w).1 ≡ (write c w.now (store_of w)).1)
  unfolding run write Users.update_password Users.incr_failed_attempts Users.clear_lock
      Users.deactivate Users.lock_until Users.set_totp
  run-write (updates id p) w = updates-write id p w
  run-write (sets_password id hash) w =
      let row = store_of-put id (with_password hash w.now) w (λ u. refl) in
      (
        ground (arith, up Statement.update_password w, any-found id w.users),
        ground (arith, up Statement.update_password w, row),
      )
  run-write (counts_failure id) w =
      let row = store_of-put id (with_failure w.now) w (λ u. refl) in
      (
        ground (arith, up Statement.incr_failed_attempts w),
        ground (arith, up Statement.incr_failed_attempts w, row),
      )
  run-write (clears_lock id) w =
      let row = store_of-put id (without_lock w.now) w (λ u. refl) in
      (ground (arith, up Statement.clear_lock w), ground (arith, up Statement.clear_lock w, row))
  run-write (deactivates id) w =
      let row = store_of-put id (without_access w.now) w (λ u. refl) in
      (
        ground (arith, up Statement.deactivate w, any-found id w.users),
        ground (arith, up Statement.deactivate w, row),
      )
  run-write (locks_until id until) w =
      let row = store_of-put id (with_lock until w.now) w (λ u. refl) in
      (ground (arith, up Statement.lock_until w), ground (arith, up Statement.lock_until w, row))
  run-write (sets_totp id secret enabled) w =
      let row = store_of-put id (with_totp secret enabled w.now) w (λ u. refl) in
      (ground (arith, up Statement.set_totp w), ground (arith, up Statement.set_totp w, row))

  run-now : (c : Write) (w : World) → (run env c w).1.now ≡ w.now
  unfolding run Users.update find_by_id update_row Users.update_password Users.incr_failed_attempts
      Users.clear_lock Users.deactivate Users.lock_until Users.set_totp
  run-now (updates id p) w = ground arith
  run-now (sets_password id hash) w = ground arith
  run-now (counts_failure id) w = ground arith
  run-now (clears_lock id) w = ground arith
  run-now (deactivates id) w = ground arith
  run-now (locks_until id until) w = ground arith
  run-now (sets_totp id secret enabled) w = ground arith

  -- The user repository is a store of users by their ids: where the database answers, a sequence of
  -- writes to users, all at one instant, gives the answers, one by one, that the store gives, and
  -- leaves the store that the store's own writes leave. A write of the store changes the user of its id
  -- alone. On an id that is not there nothing changes, and an update, a new password and a deactivation
  -- fail. An update with a role that is none fails too, and so does a count that is full.
  pub run_writes-put_writes :
      (cs : List Write) (w : World)
      → ((run_writes env cs w).0 ≡ (put_writes cs w.now (store_of w)).0)
        × (store_of (run_writes env cs w).1 ≡ (put_writes cs w.now (store_of w)).1)
  run_writes-put_writes [] w = (refl, refl)
  run_writes-put_writes (c ∷ cs) w =
      let (answer, store) = run-write c w in
      let (answers, stores) = run_writes-put_writes cs (run env c w).1 in
      (cc (answer, answers, store, run-now c w), cc (stores, store, run-now c w))
