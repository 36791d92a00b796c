-- ===== src/Tests/Resets.antt =====
-- A reset of Alice's password.
use go_with_me.Base.{String, ◌≡◌, refl, ◌=ₛ◌, find?, arith, some}
use go_with_me.Base.Text.{to_lower, trim_space}
use go_with_me.Models.{User, PasswordReset}
use go_with_me.World.{World, IsUp}
use go_with_me.Action.{ok}
use go_with_me.Repository.Users
use go_with_me.Repository.Users.{update_by_id, with_password, has_email, normal_email}
use go_with_me.Services.Auth.{new_auth_service}
use go_with_me.Services.Auth.Reset.{verify_reset_email, forgot_password}
use go_with_me.Services.Auth.Reset.Otp.{otp_text}
use go_with_me.Services.Auth.Reset.Sound.{
  MayReset, reset_claims, consumed, verify_reset_email_sound,
}
use go_with_me.Services.Auth.Reset.Trip.{started, started_reset, later, reset_round_trip}
use go_with_me.Tests.{alice, town, libraries, settings, auth}

up : IsUp libraries
up s w = refl

abbrev email : String
email = "alice@x.io"

found : find? (has_email (normal_email email)) town.users ≡ some alice
unfolding ◌=ₛ◌ to_lower trim_space
found = refl

abbrev waiting : World
waiting = later libraries settings 60 (started libraries settings alice 42 town)

abbrev used : World
used = consumed libraries auth (started_reset libraries settings alice 42 town) waiting

reset_token_signed :
    libraries.sign_jwt settings.app_secret (reset_claims libraries auth alice 1060)
    ≡ some "pwd_reset"
unfolding ◌=ₛ◌
reset_token_signed = refl

reset_round_trip_example :
    (forgot_password libraries auth email town ≡ (ok tt, started libraries settings alice 42 town))
    × (verify_reset_email libraries auth email (otp_text 42) waiting ≡ (ok "pwd_reset", used))
reset_round_trip_example =
    reset_round_trip libraries settings email alice 42 60 town "pwd_reset" up found refl refl
      (omega arith) refl (omega arith) reset_token_signed

abbrev after_use : World
after_use = later libraries settings 1 used

verified : verify_reset_email libraries auth email (otp_text 42) waiting ≡ (ok "pwd_reset", used)
verified =
    (reset_round_trip libraries settings email alice 42 60 town "pwd_reset" up found refl refl
      (omega arith) refl (omega arith) reset_token_signed).1

verify_reset_email_sound_example :
    (u : User) × (r : PasswordReset) × MayReset libraries auth email (otp_text 42) waiting u r
    × (libraries.sign_jwt settings.app_secret (reset_claims libraries auth u 1060)
        ≡ some "pwd_reset")
    × (used ≡ consumed libraries auth r waiting)
unfolding new_auth_service
verify_reset_email_sound_example =
    verify_reset_email_sound libraries auth email (otp_text 42) waiting verified

abbrev new_town : World
new_town = update_by_id 1 (with_password "#a longer one" 1000) town
