-- ===== src/Services/Auth/Login/Lockout.antt =====
-- Failed logins: what they answer, what they count, and when they lock the account.
use go_with_me.Base.{
  ℕ, ◌+◌, ◌*◌, ◌≤◌, ◌<◌, String, Bool, true, false, some, List, [], ◌∷◌, ◌≡◌, refl, arith, find?,
  inl, inr, leb, if◌then◌else◌, Bool-cases, length, All,
}
use go_with_me.Base.Text.{trim_space}
use go_with_me.Base.Text.Normal.{normal-trim_space}
use go_with_me.ApiError.{sentinel, unauthorized}
use go_with_me.Models.{User, is_locked}
use go_with_me.World.{World, Env, IsUp, minute}
use go_with_me.Action.{ok, err}
use go_with_me.Repository.Users
use go_with_me.Repository.Users.{
  has_id, has_email, normal_email, int4_max, with_failure, with_lock, update_by_id,
}
use go_with_me.Repository.Users.Laws.{
  find?-update, find_by_id-up, find_by_email-up, incr_failed_attempts-up, lock_until-up,
}
use go_with_me.Services.Auth.{AuthService}
use go_with_me.Services.Auth.Login.{login, login_found, record_failure, account_locked}

-- The address and the id find this user.
pub record IsRow (email : String) (u : User) (w : World) : Type 0 where
  pub by_email : find? (has_email (normal_email email)) w.users ≡ some u
  pub by_id : find? (has_id u.id) w.users ≡ some u

module _ (env : Env) (s : AuthService) where
  -- The row after a wrong password at `now`: one more failure, and the lock at the limit.
  abbrev pub failed_row : ℕ → User → User
  failed_row now u =
      if leb s.cfg.max_failed_attempts (u.failed_attempts + 1)
      then with_lock (now + 30 * minute) now (with_failure now u)
      else with_failure now u

  abbrev pub failed_world : User → World → World
  failed_world u w =
      let counted = update_by_id u.id (with_failure w.now) w in
      if leb s.cfg.max_failed_attempts (u.failed_attempts + 1)
      then update_by_id u.id (with_lock (w.now + 30 * minute) w.now) counted
      else counted

  record_failure_lem :
      (u : User) (w : World)
      → IsUp env
      → find? (has_id u.id) w.users ≡ some u
      → u.failed_attempts < int4_max
      → (record_failure env s u w).1 ≡ failed_world u w
  unfolding record_failure
  record_failure_lem u w up row small =
      let counted : World = update_by_id u.id (with_failure w.now) w in
      ground (
        arith,
        incr_failed_attempts-up env up u.id w row small,
        find_by_id-up env up u.id counted
            (find?-update (has_id u.id) (with_failure w.now) (λ _. refl) w.users row),
        lock_until-up env up u.id (w.now + 30 * minute) counted,
      )

  -- Both writes leave the id and the address, so the row is still found.
  failed_world-IsRow :
      (email : String) (u : User) (w : World)
      → IsRow email u w
      → IsRow email (failed_row w.now u) (failed_world u w)
  failed_world-IsRow email u w row = record {
    by_email = kept (has_email (normal_email email)) (λ _ _. refl) (λ _ _. refl) row.by_email;
    by_id = id_kept;
  }
    where
      kept :
          (key : User → Bool)
          → ((now : ℕ) (x : User) → key (with_failure now x) ≡ key x)
          → ((until : ℕ) (x : User) → key (with_lock until w.now x) ≡ key x)
          → find? key w.users ≡ some u
          → find? key (failed_world u w).users ≡ some (failed_row w.now u)
      kept key counts locks found =
          let once = find?-update key (with_failure w.now) (counts w.now) w.users found in
          elim (Bool-cases (leb s.cfg.max_failed_attempts (u.failed_attempts + 1))) [
            | inl limit ↦ rw limit (
                find?-update key (with_lock (w.now + 30 * minute) w.now)
                  (locks (w.now + 30 * minute)) _ once)
            | inr below ↦ rw below once
          ]

      row_id : (failed_row w.now u).id ≡ u.id
      row_id = elim (Bool-cases (leb s.cfg.max_failed_attempts (u.failed_attempts + 1))) [
        | inl limit ↦ rw limit refl
        | inr below ↦ rw below refl
      ]

      id_kept :
          find? (has_id (failed_row w.now u).id) (failed_world u w).users
          ≡ some (failed_row w.now u)
      id_kept = rw row_id (kept (has_id u.id) (λ _ _. refl) (λ _ _. refl) row.by_id)

  found-trimmed :
      (email : String) (u : User) (w : World)
      → IsUp env
      → IsRow email u w
      → Users.find_by_email env (trim_space email) w ≡ (ok u, w)
  found-trimmed email u w up row =
      find_by_email-up env up (trim_space email) w {u = u}
        (rw (normal-trim_space email) row.by_email)

  -- Where the database answers and the count is below the column's largest value, a wrong password
  -- for an active user who is not locked answers 401, counts one failure, and locks the account for
  -- thirty minutes if that reaches the limit; the user's row is still found by id and address.
  pub wrong_password :
      (email password : String) (u : User) (w : World)
      → IsUp env
      → IsRow email u w
      → u.is_active ≡ true
      → is_locked u w.now ≡ false
      → env.compare_hash u.password_hash password ≡ false
      → u.failed_attempts < int4_max
      → (login env s email password w ≡ (err (sentinel unauthorized), failed_world u w))
        × IsRow email (failed_row w.now u) (failed_world u w)
  unfolding login login_found
  wrong_password email password u w up row active unlocked wrong small = (
    ground (arith, found-trimmed email u w up row, record_failure_lem u w up row.by_id small),
    failed_world-IsRow email u w row,
  )

  -- While the lock lasts every password is refused, the right one too, and nothing is written.
  pub locked_refused :
      (email password : String) (u : User) (w : World)
      → IsUp env
      → IsRow email u w
      → u.is_active ≡ true
      → is_locked u w.now ≡ true
      → login env s email password w ≡ (err account_locked, w)
  unfolding login login_found
  locked_refused email password u w up row active locked =
      ground (arith, found-trimmed email u w up row)

  -- Attempts to log in with each password in turn.
  abbrev pub attempts : String → List String → World → World
  attempts email [] w = w
  attempts email (p ∷ ps) w = attempts email ps (login env s email p w).1

  locked-attempts :
      (email : String) (ps : List String) (u : User) (w : World)
      → IsUp env
      → IsRow email u w
      → u.is_active ≡ true
      → is_locked u w.now ≡ true
      → attempts email ps w ≡ w
  locked-attempts email [] u w up row active locked = refl
  locked-attempts email (p ∷ ps) u w up row active locked =
      rw (locked_refused email p u w up row active locked)
        (locked-attempts email ps u w up row active locked)

  -- The user is active, and locked from `w.now` on for thirty minutes.
  record IsLockedOut (email : String) (now : ℕ) (w : World) : Type 0 where
    user : User
    row : IsRow email user w
    active : user.is_active ≡ true
    lock : user.locked_until ≡ some (now + 30 * minute)

  attempts-IsLockedOut :
      (email : String) (ps : List String) (u : User) (w : World)
      → IsUp env
      → IsRow email u w
      → u.is_active ≡ true
      → is_locked u w.now ≡ false
      → All (λ p. env.compare_hash u.password_hash p ≡ false) ps
      → u.failed_attempts + length ps < int4_max
      → 1 ≤ length ps
      → s.cfg.max_failed_attempts ≤ u.failed_attempts + length ps
      → IsLockedOut email w.now (attempts email ps w)
  unfolding is_locked
  attempts-IsLockedOut email [] u w up row active unlocked wrong small some_tried enough =
      ground arith
  attempts-IsLockedOut email (p ∷ ps) u w up row active unlocked wrong small some_tried enough =
      let first = wrong_password email p u w up row active unlocked wrong.0 (omega arith) in
      elim (Bool-cases (leb s.cfg.max_failed_attempts (u.failed_attempts + 1))) [
        | inl limit ↦
            let locked = with_lock (w.now + 30 * minute) w.now (with_failure w.now u) in
            let locked_row = rw limit at first.1 in
            let rest = locked-attempts email ps locked _ up locked_row active (ground arith) in
            rw (first.0, limit, rest)
              record { user = locked; row = locked_row; active = active; lock = refl }
        | inr below ↦
            let counted_row = rw below at first.1 in
            rw (first.0, below)
              (attempts-IsLockedOut email ps (with_failure w.now u) _ up counted_row active unlocked
                wrong.1 (omega arith) (ground arith) (omega arith))
      ]

  -- Wrong passwords for an active user who is not locked lock the account, where the database
  -- answers and the count stays below the column's 32 bits: after as many of them, all at one
  -- instant, as bring the count to the limit, every login before thirty minutes are over is refused
  -- and writes nothing, one with the right password too.
  pub lockout :
      (email : String) (ps : List String) (u : User) (w : World)
      → IsUp env
      → IsRow email u w
      → u.is_active ≡ true
      → is_locked u w.now ≡ false
      → All (λ p. env.compare_hash u.password_hash p ≡ false) ps
      → u.failed_attempts + length ps < int4_max
      → 1 ≤ length ps
      → s.cfg.max_failed_attempts ≤ u.failed_attempts + length ps
      → (password : String) (t : ℕ) → t < w.now + 30 * minute
      → let later : World = record (attempts email ps w) { now = t } in
        login env s email password later ≡ (err account_locked, later)
  unfolding is_locked
  lockout email ps u w up row active unlocked wrong small some_tried enough password t soon =
      let out =
        attempts-IsLockedOut email ps u w up row active unlocked wrong small some_tried enough in
      locked_refused email password out.user (record (attempts email ps w) { now = t }) up
        (record { by_email = out.row.by_email; by_id = out.row.by_id }) out.active
        (ground (arith, out.lock))
