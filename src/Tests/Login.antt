-- ===== src/Tests/Login.antt =====
-- Logins of Alice and Bob.
use go_with_me.Base.{List, true, String, [], ◌∷◌, ◌≡◌, refl, ◌=ₛ◌, find?, arith, false, none}
use go_with_me.Base.Text.{to_lower, trim_space}
use go_with_me.ApiError.{sentinel, unauthorized}
use go_with_me.Models.{User, is_locked}
use go_with_me.World.{World, IsUp}
use go_with_me.Action.{ok, err, ignore, ◌>>◌}
use go_with_me.Repository.Users
use go_with_me.Repository.Users.{update_by_id, without_lock, has_email, normal_email}
use go_with_me.Token.{issue_mfa_token}
use go_with_me.Services.Auth.{mfa_result, new_auth_service}
use go_with_me.Services.Auth.Login.{login, account_locked, second_factor}
use go_with_me.Services.Auth.Login.Replica.{
  Shows, tries_on, login_on, locks, stale_replica_never_locks,
}
use go_with_me.Services.Auth.Login.Sound.{login_sound, MayLogin, IsChallenge}
use go_with_me.Services.Auth.Login.Lockout.{IsRow, attempts, lockout}
use go_with_me.Services.Auth.Login.Refusals.{refusals_alike}
use go_with_me.Tests.{alice, town, libraries, auth}

up : IsUp libraries
up s w = refl

abbrev after_login : World
after_login = update_by_id 1 (without_lock 1000) town

alice_logs_in :
    login libraries auth " Alice@x.io" "right" town ≡ (ok (mfa_result "mfa"), after_login)
unfolding login issue_mfa_token Users.find_by_email Users.clear_lock ◌=ₛ◌ to_lower trim_space
    is_locked new_auth_service
alice_logs_in = refl

login_sound_example :
    (u : User) × MayLogin libraries auth " Alice@x.io" "right" town u
    × IsChallenge libraries auth u 1000 (mfa_result "mfa")
login_sound_example = login_sound libraries auth " Alice@x.io" "right" town alice_logs_in

abbrev email : String
email = "alice@x.io"

alice-IsRow : IsRow email alice town
unfolding ◌=ₛ◌ to_lower trim_space
alice-IsRow = record { by_email = refl; by_id = refl }

wrong : libraries.compare_hash "#right" "wrong" ≡ false
unfolding ◌=ₛ◌
wrong = refl

unlocked : is_locked alice 1000 ≡ false
unfolding is_locked
unlocked = refl

lockout_example :
    let later : World = record (attempts libraries auth email ("wrong" ∷ "wrong" ∷ []) town) {
      now = 1001;
    } in
    login libraries auth email "right" later ≡ (err account_locked, later)
unfolding new_auth_service
lockout_example =
    lockout libraries auth email ("wrong" ∷ "wrong" ∷ []) alice town up alice-IsRow refl unlocked
      (wrong, (wrong, tt)) (omega arith) (omega arith) (omega arith) "right" 1001 (omega arith)

nobody_there : find? (has_email (normal_email "eve@x.io")) town.users ≡ none
unfolding ◌=ₛ◌ to_lower trim_space
nobody_there = refl

refusals_alike_example :
    login libraries auth "eve@x.io" "any" town ≡ (err (sentinel unauthorized), town)
refusals_alike_example =
    refusals_alike libraries auth "eve@x.io" "any" town up (rw nobody_there refl)

-- A replica that has stopped at `town`.
abbrev stopped : World → World
stopped w = record w { users = town.users }

stopped-Shows : Shows stopped email alice
unfolding ◌=ₛ◌ to_lower trim_space
stopped-Shows = record { by_email = λ w. refl; by_id = λ w. refl }

right : libraries.compare_hash "#right" "right" ≡ true
unfolding ◌=ₛ◌
right = refl

abbrev guesses : List String
guesses = "wrong" ∷ "wrong" ∷ "wrong" ∷ "wrong" ∷ "wrong" ∷ "wrong" ∷ []

stale_replica_never_locks_example :
    let w' : World = tries_on libraries auth stopped email guesses town in
    (locks w'.users ≡ locks town.users)
    × (login_on libraries auth stopped email "right" w'
        ≡ (do ignore (Users.clear_lock libraries 1); second_factor libraries auth alice) w')
unfolding new_auth_service
stale_replica_never_locks_example =
    stale_replica_never_locks libraries auth stopped email alice up stopped-Shows guesses "right"
      town refl refl (omega arith) (wrong, (wrong, (wrong, (wrong, (wrong, (wrong, tt)))))) right
