-- ===== src/Services/Auth/Login/Sound.antt =====
-- What a successful login has checked.
use go_with_me.Base.{
  ℕ, ◌*◌, String, true, false, some, ◌≡◌, arith, find?, inl, inr, Option-cases, if◌then◌else◌,
}
use go_with_me.Base.Text.{trim_space}
use go_with_me.Base.Text.Normal.{normal-trim_space}
use go_with_me.Models.{User, is_locked}
use go_with_me.Claims.{Claims, purpose_totp_setup}
use go_with_me.World.{World, Env, minute, hour}
use go_with_me.Action.{ok, map_error}
use go_with_me.Action.Rules.{>>=-ok}
use go_with_me.Token.{mfa_claims, purpose_claims, issue_mfa_token, issue_purpose_token}
use go_with_me.Repository.Users
use go_with_me.Repository.Users.{has_email, normal_email}
use go_with_me.Services.Auth.{AuthService, LoginResult, mfa_result, setup_result}
use go_with_me.Services.Auth.Login.{login, login_found, is_enrolled, or_default, hide_not_found}

module _ (env : Env) (s : AuthService) where
  -- The token that follows the password: for the code of an enrolled user, for the enrolment of any
  -- other. It never is a session.
  abbrev pub challenge_claims : User → ℕ → Claims
  challenge_claims u now =
      if is_enrolled u
      then mfa_claims env now u.id (s.cfg.mfa_expiry_minutes * minute)
      else purpose_claims env now u.id u.email purpose_totp_setup
          (or_default (s.cfg.totp_setup_expiry_minutes * minute) hour)

  abbrev pub challenge_result : User → String → LoginResult
  challenge_result u token = if is_enrolled u then mfa_result token else setup_result token

  abbrev pub IsChallenge : User → ℕ → LoginResult → Type 0
  IsChallenge u now r =
      (token : String) × (env.sign_jwt s.cfg.app_secret (challenge_claims u now) ≡ some token)
      × (r ≡ challenge_result u token)

  -- A user who may log in at `now` with this password.
  pub record MayLogin (email secret : String) (w : World) (u : User) : Type 0 where
    pub found : find? (has_email (normal_email email)) w.users ≡ some u
    pub active : u.is_active ≡ true
    pub unlocked : is_locked u w.now ≡ false
    pub password : env.compare_hash u.password_hash secret ≡ true

  found_user :
      (email : String) (w : World) {u : User} {v : World}
      → map_error hide_not_found (Users.find_by_email env (trim_space email)) w ≡ (ok u, v)
      → (find? (has_email (normal_email email)) w.users ≡ some u) × (v ≡ w)
  unfolding Users.find_by_email
  found_user email w h = ground (arith, normal-trim_space email)

  login_found-checks :
      (password : String) (u : User) (w : World) {r : LoginResult} {w' : World}
      → login_found env s password u w ≡ (ok r, w')
      → (u.is_active ≡ true)
        × (is_locked u w.now ≡ false)
        × (env.compare_hash u.password_hash password ≡ true)
  unfolding login_found
  login_found-checks password u w h = ground arith

  login_found-IsChallenge :
      (password : String) (u : User) (w : World) {r : LoginResult} {w' : World}
      → login_found env s password u w ≡ (ok r, w')
      → IsChallenge u w.now r
  unfolding login_found Users.clear_lock issue_mfa_token issue_purpose_token
  login_found-IsChallenge password u w h =
      elim (Option-cases (env.sign_jwt s.cfg.app_secret (challenge_claims u w.now))) [
        | inl unsigned ↦ absurd (ground arith)
        | inr (token, signed) ↦ (token, signed, ground arith)
      ]

  -- A login that succeeds has found an active user who is not locked and has this password, and it
  -- answers that user's challenge.
  pub login_sound :
      (email password : String) (w : World) {r : LoginResult} {w' : World}
      → login env s email password w ≡ (ok r, w')
      → (u : User) × MayLogin email password w u × IsChallenge u w.now r
  unfolding login
  login_sound email password w {r} {w'} h =
      let (u, v, found, rest) =
        >>=-ok (map_error hide_not_found (Users.find_by_email env (trim_space email)))
          (login_found env s password) h in
      let (row, same) = found_user email w found in
      let rest' : login_found env s password u w ≡ (ok r, w') = rw (← same) rest in
      let (active, unlocked, right) = login_found-checks password u w rest' in
      (
        u,
        record { found = row; active = active; unlocked = unlocked; password = right },
        login_found-IsChallenge password u w rest',
      )
