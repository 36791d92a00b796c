-- ===== src/Tests/Jobs.antt =====
-- Jobs, the scheduled clean-up, and two calls at once.
use go_with_me.Base.{
  ℕ, ◌+◌, ◌*◌, ◌≤◌, ◌≢◌, true, false, none, some, List, [], ◌∷◌, ◌++◌, ◌≡◌, refl, arith, ◌⊎◌, ◌=ₛ◌,
  count,
}
use go_with_me.Base.Text.{to_lower, trim_space}
use go_with_me.ApiError.{Error, plain}
use go_with_me.Action.{ok, done, ◌>>◌}
use go_with_me.Models.{User, PasswordReset, AuditLog, is_expired}
use go_with_me.Models.Roles.{role_super_admin}
use go_with_me.World.{World, IsUp}
use go_with_me.Repository.Users
use go_with_me.Repository.Users.{is_active_super_admin}
use go_with_me.Services.UserAdmin
use go_with_me.App.Table.{admins}
use go_with_me.App.Valid.{IsValid}
use go_with_me.App.Race.{guard, race_loses_admins}
use go_with_me.Jobs.Worker.{
  Worker, handling, leaving, Running, launched, Step, finish, send, receive, Reach, start, later,
}
use go_with_me.Jobs.Worker.FirstError.{Answers, run_result}
use go_with_me.Jobs.Worker.Ends.{steps, run_returns}
use go_with_me.Jobs.Scheduler
use go_with_me.Jobs.Scheduler.{Event, elapse, tick, cancel, run, step}
use go_with_me.Bootstrap.Start.{schedule}
use go_with_me.Bootstrap.Start.CleanUp.{clean_up_deletes}
use go_with_me.Http.Managed.{serve_all, serve_all-audit}
use go_with_me.Tests.{alice, bob, town, libraries}
use go_with_me.Tests.Routes.{server, removals}

abbrev two_jobs : Worker
two_jobs = record {
  jobs = record { name = "a"; handler = done } ∷ record { name = "b"; handler = done } ∷ [];
}

abbrev boom : Error
boom = plain "boom"

-- The second job has failed, and the first still runs.
abbrev after_boom : Running
after_boom = record {
  pcs = handling ∷ leaving (some boom) ∷ [];
  channel = [];
  is_closed = false;
  cancelled = false;
  result = some (some boom);
  sent = boom ∷ [];
}

boom_first : Reach (launched two_jobs) after_boom
boom_first =
    later
      (later (later start (finish (handling ∷ []) [] (some boom) refl refl))
        (send (handling ∷ []) [] boom refl (omega arith) refl))
      (receive boom [] refl refl refl)

run_result_example : Answers after_boom (some boom)
run_result_example = run_result two_jobs (omega arith) boom_first refl

run_returns_example :
    (steps boom_first ≤ 3 * 2 + 3)
    × ((after_boom.result ≢ none) ⊎ ((t : Running) × Step after_boom t))
run_returns_example = run_returns two_jobs boom_first

abbrev reset_at : ℕ → PasswordReset
reset_at expires_at = record {
  id = 7;
  user_id = 1;
  otp_hash = "h";
  token = none;
  expires_at = expires_at;
  used_at = none;
  created_at = 0;
}

-- One reset expires before the clean-up, and one after.
abbrev busy_town : World
busy_town = record town { resets = reset_at 1003 ∷ reset_at 2000 ∷ [] }

up : IsUp libraries
up s w = refl

abbrev ticks : List Event
ticks = elapse 5 ∷ tick 0 ∷ cancel ∷ tick 0 ∷ []

clean_up_deletes_example :
    let t =
      step (run (Scheduler.launched (schedule libraries) busy_town) (elapse 5 ∷ [])) (tick 0) in
    count (λ r. is_expired r t.world.now) t.world.resets ≡ 0
clean_up_deletes_example = clean_up_deletes libraries busy_town (elapse 5 ∷ []) up refl

serve_all-audit_example :
    (more : List AuditLog) × ((serve_all server removals town).audit ≡ more ++ [])
serve_all-audit_example = serve_all-audit server removals town

abbrev boss : User
boss = record bob { role = role_super_admin }

abbrev two_admins : World
two_admins = record town { users = alice ∷ boss ∷ [] }

two_admins-IsValid : IsValid two_admins
unfolding ◌=ₛ◌ to_lower trim_space
two_admins-IsValid = (refl, refl, refl, refl, (refl, refl, refl, refl, tt))

two_of_them : admins two_admins.users ≡ 2
unfolding ◌=ₛ◌
two_of_them = omega arith

alice_is_one : is_active_super_admin alice ≡ true
unfolding ◌=ₛ◌
alice_is_one = refl

boss_is_one : is_active_super_admin boss ≡ true
unfolding ◌=ₛ◌
boss_is_one = refl

race_loses_admins_example :
    let w' : World = (Users.deactivate libraries 1 two_admins).1 in
    (UserAdmin.deactivate libraries 1 two_admins
      ≡ (do guard libraries 1; Users.deactivate libraries 1) two_admins)
    × (guard libraries 1 two_admins ≡ (ok tt, two_admins))
    × (guard libraries 2 two_admins ≡ (ok tt, two_admins))
    × (admins (Users.deactivate libraries 2 w').1.users ≡ 0)
race_loses_admins_example =
    race_loses_admins libraries up 1 2 alice boss two_admins two_admins-IsValid two_of_them
      (omega arith) refl alice_is_one refl boss_is_one
