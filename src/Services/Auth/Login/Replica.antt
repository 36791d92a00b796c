-- ===== src/Services/Auth/Login/Replica.antt =====
-- `Login` where the pool of `r.read()` is a replica (internal/bootstrap/database.go): its reads see the
-- table as the replica has it, and its writes go to the primary.
use go_with_me.Base.{
  ℕ, ◌+◌, ◌*◌, ◌<◌, String, true, false, not, Option, none, some, List, [], ◌∷◌, ◌≡◌, refl, ◌∙◌,
  arith, find?, if◌then◌else◌, All, map, update_where,
}
use go_with_me.Base.Text.{trim_space}
use go_with_me.Base.Text.Normal.{normal-trim_space}
use go_with_me.ApiError.{sentinel, unauthorized}
use go_with_me.Models.{User, is_locked}
use go_with_me.World.{World, Env, IsUp, minute}
use go_with_me.Action.{
  Action, Result, ok, err, bind_of, raise, gets, map_error, ignore, attempt, raise_if, done, ◌>>=◌,
  ◌>>◌,
}
use go_with_me.Repository.Users
use go_with_me.Repository.Users.{has_id, has_email, normal_email, with_failure, update_by_id}
use go_with_me.Repository.Users.Laws.{find_by_id-up, find_by_email-up}
use go_with_me.Services.Auth.{AuthService, LoginResult}
use go_with_me.Services.Auth.Login.{
  login, login_found, record_failure, second_factor, reached_limit, account_locked, hide_not_found,
}

-- A statement that reads, on the replica.
abbrev pub on_replica : {A : Type 0} → (World → World) → Action A → Action A
on_replica replica m w = ((m (replica w)).0, w)

module _ (env : Env) (s : AuthService) (replica : World → World) where
  unfoldable pub record_failure_on : User → Action (Unit {0})
  record_failure_on u = do
    ignore (Users.incr_failed_attempts env u.id)
    reread ← attempt (on_replica replica (Users.find_by_id env u.id))
    now ← gets (λ w. w.now)
    if reached_limit env s reread
        then ignore (Users.lock_until env u.id (now + 30 * minute))
        else done

  unfoldable pub login_found_on : String → User → Action LoginResult
  unfolding record_failure_on
  login_found_on password u = do
    raise_if (not u.is_active) (sentinel unauthorized)
    now ← gets (λ w. w.now)
    raise_if (is_locked u now) account_locked
    if env.compare_hash u.password_hash password
        then (do ignore (Users.clear_lock env u.id); second_factor env s u)
        else (do record_failure_on u; raise (sentinel unauthorized))

  unfoldable pub login_on : String → String → Action LoginResult
  unfolding login_found_on
  login_on email password = do
    u ← map_error hide_not_found (on_replica replica (Users.find_by_email env (trim_space email)))
    login_found_on password u

  -- Passwords tried in turn.
  abbrev pub tries_on : String → List String → World → World
  tries_on email [] w = w
  tries_on email (p ∷ ps) w = tries_on email ps (login_on email p w).1

module _ (env : Env) (s : AuthService) where
  find_by_email-same :
      (email : String) (w : World)
      → on_replica (λ v. v) (Users.find_by_email env email) w ≡ Users.find_by_email env email w
  unfolding Users.find_by_email
  find_by_email-same email w = ground arith

  record_failure_on-fresh :
      (u : User) (w : World) → record_failure_on env s (λ v. v) u w ≡ record_failure env s u w
  unfolding record_failure record_failure_on Users.find_by_id
  record_failure_on-fresh u w = ground arith

  login_found_on-fresh :
      (password : String) (u : User) (w : World)
      → login_found_on env s (λ v. v) password u w ≡ login_found env s password u w
  unfolding login_found login_found_on
  login_found_on-fresh password u w = ground (arith, record_failure_on-fresh u w)

  found-fresh :
      (password : String) (p : Result User × World)
      → bind_of (login_found_on env s (λ v. v) password) p ≡ bind_of (login_found env s password) p
  found-fresh password (ok u, w) = login_found_on-fresh password u w
  found-fresh password (err e, w) = refl

  -- Where the replica does not lag, this is `login`.
  pub login_on-fresh :
      (email password : String) (w : World)
      → login_on env s (λ v. v) email password w ≡ login env s email password w
  unfolding login login_on
  login_on-fresh email password w = rw (find_by_email-same (trim_space email) w) (
      found-fresh password
        (map_error hide_not_found (Users.find_by_email env (trim_space email)) w))

-- The times until which the accounts are locked.
abbrev pub locks : List User → List (Option ℕ)
locks us = map (λ u. u.locked_until) us

locks-update :
    (id now : ℕ) (us : List User)
    → locks (update_where (has_id id) (with_failure now) us) ≡ locks us
locks-update id now [] = refl
locks-update id now (u ∷ us) = ground (arith, locks-update id now us)

-- The replica shows the user as this row, whatever has been written since.
pub record Shows (replica : World → World) (email : String) (u : User) : Type 0 where
  pub by_email : (w : World) → find? (has_email (normal_email email)) (replica w).users ≡ some u
  pub by_id : (w : World) → find? (has_id u.id) (replica w).users ≡ some u

module _ (env : Env) (s : AuthService) (replica : World → World) (email : String) (u : User) where
  locks-incr : (w : World) → locks (Users.incr_failed_attempts env u.id w).1.users ≡ locks w.users
  unfolding Users.incr_failed_attempts
  locks-incr w = ground (arith, locks-update u.id w.now w.users)

  module _ (up : IsUp env) (shows : Shows replica email u) where
    reread-shown : (w : World) → on_replica replica (Users.find_by_id env u.id) w ≡ (ok u, w)
    reread-shown w = rw (find_by_id-up env up u.id (replica w) (shows.by_id w)) refl

    found-shown :
        (w : World) → on_replica replica (Users.find_by_email env (trim_space email)) w ≡ (ok u, w)
    found-shown w =
        rw
          (find_by_email-up env up (trim_space email) (replica w) {u = u}
            (rw (normal-trim_space email) (shows.by_email w)))
          refl

    locks-record_failure_on :
        (w : World)
        → u.failed_attempts < s.cfg.max_failed_attempts
        → locks (record_failure_on env s replica u w).1.users ≡ locks w.users
    unfolding record_failure_on
    locks-record_failure_on w below =
        let w' : World = (Users.incr_failed_attempts env u.id w).1 in
        ground (arith, reread-shown w', locks-incr w)

    locks-login_on :
        (password : String) (w : World)
        → u.is_active ≡ true
        → u.locked_until ≡ none
        → u.failed_attempts < s.cfg.max_failed_attempts
        → env.compare_hash u.password_hash password ≡ false
        → ((login_on env s replica email password w).0 ≡ err (sentinel unauthorized))
          × (locks (login_on env s replica email password w).1.users ≡ locks w.users)
    unfolding login_on login_found_on is_locked
    locks-login_on password w active unlocked below wrong = (
      ground (arith, found-shown w),
      ground (arith, found-shown w, locks-record_failure_on w below),
    )

    locks-tries_on :
        (ps : List String) (w : World)
        → u.is_active ≡ true
        → u.locked_until ≡ none
        → u.failed_attempts < s.cfg.max_failed_attempts
        → All (λ p. env.compare_hash u.password_hash p ≡ false) ps
        → locks (tries_on env s replica email ps w).users ≡ locks w.users
    locks-tries_on [] w active unlocked below wrong = refl
    locks-tries_on (p ∷ ps) w active unlocked below wrong =
        locks-tries_on ps (login_on env s replica email p w).1 active unlocked below wrong.1
        ∙ (locks-login_on p w active unlocked below wrong.0).1

    -- While a replica shows an active user unlocked and below the limit, no number of wrong passwords
    -- locks the account, whatever the primary has counted, where the database answers; and the right
    -- password after them is let through to the second factor.
    pub stale_replica_never_locks :
        (ps : List String) (password : String) (w : World)
        → u.is_active ≡ true
        → u.locked_until ≡ none
        → u.failed_attempts < s.cfg.max_failed_attempts
        → All (λ p. env.compare_hash u.password_hash p ≡ false) ps
        → env.compare_hash u.password_hash password ≡ true
        → let w' : World = tries_on env s replica email ps w in
          (locks w'.users ≡ locks w.users)
          × (login_on env s replica email password w'
              ≡ (do ignore (Users.clear_lock env u.id); second_factor env s u) w')
    unfolding login_on login_found_on is_locked
    stale_replica_never_locks ps password w active unlocked below wrong right =
        let w' : World = tries_on env s replica email ps w in
        (locks-tries_on ps w active unlocked below wrong, ground (arith, found-shown w'))
