-- ===== src/Tests/Lockouts.antt =====
-- Two wrong passwords for Alice at once.
use go_with_me.Base.{ℕ, ◌+◌, ◌*◌, ◌≤◌, some, List, [], ◌∷◌, ◌≡◌, ◌=ₛ◌, refl, arith, find?, false}
use go_with_me.Models.{User, is_locked}
use go_with_me.World.{World, IsUp, minute}
use go_with_me.Repository.Users
use go_with_me.Repository.Users.{has_id, update_by_id, with_failure, with_lock}
use go_with_me.Services.Auth.{new_auth_service}
use go_with_me.Services.Auth.Login.AtOnce.{
  Stage, trying, failing, recounting, locking, answered, Reach, start, later, fails, counts,
  rereads, locks,
}
use go_with_me.Services.Auth.Login.Crowd.{lockout_at_once}
use go_with_me.Tests.{alice, town, libraries, auth}

up : IsUp libraries
up s w = refl

wrong : libraries.compare_hash "#right" "wrong" ≡ false
unfolding ◌=ₛ◌
wrong = refl

unlocked : is_locked alice 1000 ≡ false
unfolding is_locked
unlocked = refl

abbrev one_failure : World
one_failure = update_by_id 1 (with_failure 1000) town

abbrev two_failures : World
two_failures = update_by_id 1 (with_failure 1000) one_failure

abbrev until : ℕ
until = 1000 + 30 * minute

abbrev locked : World
locked = update_by_id 1 (with_lock until 1000) two_failures

abbrev locked_twice : World
locked_twice = update_by_id 1 (with_lock until 1000) locked

abbrev Reached : World → List Stage → Type 0
Reached w ss = Reach libraries auth 1 town 2 (record { world = w; stages = ss })

both_fail : Reached town (failing ∷ failing ∷ [])
both_fail =
    let first : Reached town (failing ∷ trying ∷ []) =
      later start (fails [] (trying ∷ []) alice "wrong" refl refl refl unlocked wrong refl) in
    later first (fails (failing ∷ []) [] alice "wrong" refl refl refl unlocked wrong refl)

both_counted : Reached two_failures (recounting ∷ recounting ∷ [])
unfolding Users.incr_failed_attempts
both_counted =
    let first : Reached one_failure (recounting ∷ failing ∷ []) =
      later both_fail (counts [] (failing ∷ []) refl refl) in
    later first (counts (recounting ∷ []) [] refl refl)

both_reread : Reached two_failures (locking until ∷ locking until ∷ [])
unfolding Users.find_by_id new_auth_service
both_reread =
    let first : Reached two_failures (locking until ∷ recounting ∷ []) =
      later both_counted (rereads [] (recounting ∷ []) refl refl) in
    later first (rereads (locking until ∷ []) [] refl refl)

both_over : Reached locked_twice (answered ∷ answered ∷ [])
unfolding Users.lock_until
both_over =
    let first : Reached locked (answered ∷ locking until ∷ []) =
      later both_reread (locks [] (locking until ∷ []) until refl refl) in
    later first (locks (answered ∷ []) [] until refl refl)

lockout_at_once_example :
    (v : User) × (find? (has_id 1) locked_twice.users ≡ some v)
    × (t : ℕ) × (v.locked_until ≡ some t)
    × (1000 + 30 * minute ≤ t)
unfolding new_auth_service
lockout_at_once_example =
    lockout_at_once libraries auth 2 alice town
      (record { world = locked_twice; stages = answered ∷ answered ∷ [] }) up refl unlocked
      (omega arith) (omega arith) (omega arith) both_over (refl, (refl, tt))
