-- ===== src/Services/Auth/Session.antt =====
-- What the flows that a token opens have checked when they succeed.
use go_with_me.Base.{
  ℕ, ◌+◌, ◌*◌, String, true, some, ◌≡◌, refl, arith, find?, inl, inr, Option-cases, =ₛ_iff, ==_iff,
}
use go_with_me.Models.{User}
use go_with_me.Models.Roles.{role_permissions}
use go_with_me.Claims.{Claims, purpose_mfa, purpose_totp_setup}
use go_with_me.World.{World, Env, hour}
use go_with_me.Action.{Action, ok, ◌>>=◌}
use go_with_me.Action.Rules.{>>=-ok}
use go_with_me.Token.{parse_at, parse, session_claims, issue_session_token}
use go_with_me.Repository.Users
use go_with_me.Repository.Users.{has_id, with_totp, update_by_id}
use go_with_me.Repository.Users.Laws.{find?-update, find?-passes}
use go_with_me.Services.Auth.{AuthService, LoginResult, session_result, token_user, issue_session}
use go_with_me.Services.Auth.Totp.{
  verify_totp, verify_found, confirm_totp, confirm_found, code_fits,
}

module _ (env : Env) (s : AuthService) where
  -- The token has this purpose and names this user.
  pub record Names (purpose text : String) (w : World) (u : User) : Type 0 where
    pub claims : Claims
    pub parsed : parse_at env w.now text s.cfg.app_secret ≡ some claims
    pub right_purpose : claims.purpose ≡ purpose
    pub found : find? (has_id claims.user_id) w.users ≡ some u

  token_user-ok :
      (text purpose : String) (w : World) {u : User} {v : World}
      → token_user env s text purpose w ≡ (ok u, v)
      → Names purpose text w u × (v ≡ w)
  unfolding token_user Users.find_by_id parse
  token_user-ok text purpose w h = elim (Option-cases (parse_at env w.now text s.cfg.app_secret)) [
    | inl unparsed ↦ absurd (ground arith)
    | inr (c, parsed) ↦ (
      record {
        claims = c;
        parsed = parsed;
        right_purpose = ground (arith, =ₛ_iff c.purpose purpose);
        found = ground arith;
      },
      ground arith,
    )
  ]

  -- A flow that starts with a token has run for the user that it names.
  pub opened :
      {A : Type 0} (text purpose : String) (f : User → Action A) (w : World) {a : A} {w' : World}
      → (token_user env s text purpose >>= f) w ≡ (ok a, w')
      → (u : User) × Names purpose text w u × (f u w ≡ (ok a, w'))
  opened text purpose f w {a} {w'} h =
      let (u, v, found, rest) = >>=-ok (token_user env s text purpose) f h in
      let (names, same) = token_user-ok text purpose w found in (u, names, rw (← same) rest)

  -- The result is a session of this user, with the permissions of its role, from `now` on.
  pub record IsSession (u : User) (now : ℕ) (r : LoginResult) : Type 0 where
    pub token : String
    pub signed :
        env.sign_jwt s.cfg.app_secret (
          session_claims env now u.id u.email u.role
            (role_permissions u.role)
            (s.cfg.jwt_expiry_hours * hour))
        ≡ some token
    pub result : r ≡ session_result token (now + s.cfg.jwt_expiry_hours * hour)

  issue_session-IsSession :
      (u : User) (w : World) {r : LoginResult} {w' : World}
      → issue_session env s u w ≡ (ok r, w')
      → IsSession u w.now r × (w' ≡ w)
  unfolding issue_session issue_session_token
  issue_session-IsSession u w h =
      let claims : Claims =
        session_claims env w.now u.id u.email u.role (role_permissions u.role)
          (s.cfg.jwt_expiry_hours * hour) in
      elim (Option-cases (env.sign_jwt s.cfg.app_secret claims)) [
        | inl unsigned ↦ absurd (ground arith)
        | inr (token, signed) ↦
            (record { token = token; signed = signed; result = ground arith }, ground arith)
      ]

  verify_found-checks :
      (code : String) (u : User) (w : World) {r : LoginResult} {w' : World}
      → verify_found env s code u w ≡ (ok r, w')
      → (u.is_active ≡ true)
        × (code_fits env s w code u.totp_secret ≡ true)
        × (issue_session env s u w ≡ (ok r, w'))
  verify_found-checks code u w h = ground arith

  -- A session comes out of `verify_totp` only for a token of the purpose `mfa` that names an active
  -- user, with a code that fits this user's secret; the session is this user's, and nothing is
  -- written.
  pub verify_totp_sound :
      (text code : String) (w : World) {r : LoginResult} {w' : World}
      → verify_totp env s text code w ≡ (ok r, w')
      → (u : User) × Names purpose_mfa text w u
        × (u.is_active ≡ true)
        × (code_fits env s w code u.totp_secret ≡ true)
        × IsSession u w.now r
        × (w' ≡ w)
  unfolding verify_totp
  verify_totp_sound text code w h =
      let (u, names, rest) = opened text purpose_mfa (verify_found env s code) w h in
      let (active, fits, issued) = verify_found-checks code u w rest in
      let (session, same) = issue_session-IsSession u w issued in
      (u, names, active, fits, session, same)

  confirm_found-checks :
      (secret code : String) (u : User) (w : World) {r : LoginResult} {w' : World}
      → find? (has_id u.id) w.users ≡ some u
      → confirm_found env s secret code u w ≡ (ok r, w')
      → let stored : World = update_by_id u.id (with_totp secret true w.now) w in
        (u.is_active ≡ true)
        × (code_fits env s w code (some secret) ≡ true)
        × (issue_session env s (with_totp secret true w.now u) stored ≡ (ok r, w'))
  unfolding Users.set_totp Users.find_by_id
  confirm_found-checks secret code u w found h =
      ground
        (arith, find?-update (has_id u.id) (with_totp secret true w.now) (λ _. refl) w.users found)

  found_by_own_id :
      (purpose text : String) (w : World) (u : User)
      → Names purpose text w u
      → find? (has_id u.id) w.users ≡ some u
  found_by_own_id purpose text w u names =
      let own : u.id ≡ names.claims.user_id =
        (==_iff u.id names.claims.user_id).0
          (find?-passes (has_id names.claims.user_id) w.users names.found) in
      simp own names.found

  -- `confirm_totp` answers a session only for a token of the purpose `totp_setup` that names an
  -- active user, with a code that fits the secret given; then that secret is this user's second
  -- factor, and nothing else has changed.
  pub confirm_totp_sound :
      (text secret code : String) (w : World) {r : LoginResult} {w' : World}
      → confirm_totp env s text secret code w ≡ (ok r, w')
      → (u : User) × Names purpose_totp_setup text w u
        × (u.is_active ≡ true)
        × (code_fits env s w code (some secret) ≡ true)
        × IsSession (with_totp secret true w.now u) w.now r
        × (w' ≡ update_by_id u.id (with_totp secret true w.now) w)
  unfolding confirm_totp
  confirm_totp_sound text secret code w h =
      let (u, names, rest) = opened text purpose_totp_setup (confirm_found env s secret code) w h in
      let own = found_by_own_id purpose_totp_setup text w u names in
      let (active, fits, issued) = confirm_found-checks secret code u w own rest in
      let (session, same) =
        issue_session-IsSession (with_totp secret true w.now u)
          (update_by_id u.id (with_totp secret true w.now) w) issued in
      (u, names, active, fits, session, same)
