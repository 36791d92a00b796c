-- ===== src/Tests/Callers.antt =====
-- Two callers at once with the code of Alice's reset.
use go_with_me.Base.{ℕ, String, ◌≡◌, ◌=ₛ◌, refl, ◌≢◌, arith}
use go_with_me.Base.Text.{to_lower, trim_space}
use go_with_me.ApiError.{Error, sentinel, not_found, wrapped}
use go_with_me.Models.{PasswordReset, is_expired, is_consumed}
use go_with_me.Token.{issue_purpose_token}
use go_with_me.World.{World}
use go_with_me.Action.{ok, err}
use go_with_me.Repository.Users
use go_with_me.Repository.Resets
use go_with_me.Services.Auth.{new_auth_service}
use go_with_me.Services.Auth.Reset.{use_reset}
use go_with_me.Services.Auth.Reset.Otp.{otp_text}
use go_with_me.Services.Auth.Reset.Sound.{consumed}
use go_with_me.Services.Auth.Reset.Trip.{started, started_reset}
use go_with_me.Services.Auth.Reset.Trip
use go_with_me.Services.Auth.Reset.AtOnce.{look_up}
use go_with_me.Services.Auth.Reset.OneToken.{
  calling, holding, refused, answered, Callers, set_stage, finds, uses, fails, Reach, start, later,
  one_token,
}
use go_with_me.Tests.{alice, town, libraries, settings, auth}

abbrev emails : ℕ → String
emails i = "alice@x.io"

abbrev codes : ℕ → String
codes i = "000042"

abbrev reset : PasswordReset
reset = started_reset libraries settings alice 42 town

abbrev waiting : World
waiting = Trip.later libraries settings 60 (started libraries settings alice 42 town)

abbrev used : World
used = consumed libraries auth reset waiting

look_up_run : look_up libraries auth "alice@x.io" "000042" waiting ≡ (ok (alice, reset), waiting)
unfolding look_up Users.find_by_email Resets.find_by_user_id ◌=ₛ◌ to_lower trim_space
look_up_run = refl

first_use : use_reset libraries auth "000042" alice reset waiting ≡ (ok "pwd_reset", used)
unfolding Resets.consume issue_purpose_token ◌=ₛ◌ trim_space new_auth_service is_expired is_consumed
    otp_text
first_use = refl

abbrev used_before : Error
used_before = wrapped "consume reset record" (sentinel not_found)

second_use : use_reset libraries auth "000042" alice reset used ≡ (err used_before, used)
unfolding Resets.consume issue_purpose_token ◌=ₛ◌ trim_space new_auth_service is_expired is_consumed
    otp_text
second_use = refl

abbrev at_first : Callers
at_first = record { world = waiting; stage = λ i. calling }

abbrev one_found : Callers
one_found = record { world = waiting; stage = set_stage at_first.stage 0 (holding alice reset) }

abbrev both_found : Callers
both_found = record { world = waiting; stage = set_stage one_found.stage 1 (holding alice reset) }

abbrev one_answered : Callers
one_answered = record {
  world = used;
  stage = set_stage both_found.stage 0 (answered reset "pwd_reset");
}

abbrev other_refused : Callers
other_refused = record {
  world = used;
  stage = set_stage one_answered.stage 1 (refused used_before);
}

-- Both find the reset; the one that is first to use it gets the token, and the other an error.
raced : Reach libraries auth emails codes waiting other_refused
raced =
    later
      (later
        (later (later start (finds 0 alice reset waiting refl look_up_run refl))
          (finds 1 alice reset waiting refl look_up_run refl))
        (uses 0 alice reset "pwd_reset" used refl first_use refl))
      (fails 1 alice reset used_before used refl second_use refl)

one_token_example : other_refused.stage 1 ≢ answered reset "pwd_reset"
one_token_example =
    one_token libraries auth emails codes {i = 0} {j = 1} {r = reset} {r' = reset}
      {token = "pwd_reset"} raced (omega arith) refl refl
