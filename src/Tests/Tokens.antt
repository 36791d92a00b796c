-- ===== src/Tests/Tokens.antt =====
-- The tokens of Alice, and a forged one.
use go_with_me.Base.{◌≡◌, refl, ◌=ₛ◌, ◌+◌, ◌*◌, true, some}
use go_with_me.Base.Text.{trim_space}
use go_with_me.Claims.{purpose_mfa, purpose_totp_setup}
use go_with_me.Models.{User}
use go_with_me.World.{World, hour}
use go_with_me.Action.{ok}
use go_with_me.Repository.Users
use go_with_me.Repository.Users.{update_by_id, with_totp}
use go_with_me.Token.{parse, parse_at, issue_session_token}
use go_with_me.Services.Auth.{session_result, new_auth_service, issue_session}
use go_with_me.Services.Auth.Totp.{verify_totp, confirm_totp, code_fits}
use go_with_me.Services.Auth.Session.{Names, IsSession, verify_totp_sound, confirm_totp_sound}
use go_with_me.Services.Auth.Guards.{lacks_purpose, reset, IsRefused, purposes_apart}
use go_with_me.Tests.{town, libraries, auth}

verified :
    verify_totp libraries auth "mfa" " 123456" town
    ≡ (ok (session_result "session" (1000 + 8 * hour)), town)
unfolding verify_totp parse ◌=ₛ◌ trim_space Users.find_by_id issue_session issue_session_token
    new_auth_service
verified = refl

verify_totp_sound_example :
    (u : User) × Names libraries auth purpose_mfa "mfa" town u
    × (u.is_active ≡ true)
    × (code_fits libraries auth town " 123456" u.totp_secret ≡ true)
    × IsSession libraries auth u 1000 (session_result "session" (1000 + 8 * hour))
    × (town ≡ town)
verify_totp_sound_example = verify_totp_sound libraries auth "mfa" " 123456" town verified

abbrev confirmed_town : World
confirmed_town = update_by_id 1 (with_totp "T" true 1000) town

confirmed :
    confirm_totp libraries auth "totp_setup" "T" "123456" town
    ≡ (ok (session_result "session" (1000 + 8 * hour)), confirmed_town)
unfolding confirm_totp parse ◌=ₛ◌ trim_space Users.find_by_id Users.set_totp issue_session
    issue_session_token new_auth_service
confirmed = refl

confirm_totp_sound_example :
    (u : User) × Names libraries auth purpose_totp_setup "totp_setup" town u
    × (u.is_active ≡ true)
    × (code_fits libraries auth town "123456" (some "T") ≡ true)
    × IsSession libraries auth
        (with_totp "T" true 1000 u)
        1000
        (session_result "session" (1000 + 8 * hour))
    × (confirmed_town ≡ update_by_id u.id (with_totp "T" true 1000) town)
confirm_totp_sound_example =
    confirm_totp_sound libraries auth "totp_setup" "T" "123456" town confirmed

other_purpose :
    lacks_purpose "pwd_reset" (parse_at libraries 1000 "invite" auth.cfg.app_secret) ≡ true
unfolding parse_at ◌=ₛ◌ new_auth_service
other_purpose = refl

-- The token of an invitation does not reset a password.
purposes_apart_example : IsRefused libraries auth reset "invite" town
purposes_apart_example = purposes_apart libraries auth reset "invite" town other_purpose
