-- ===== src/Services/Auth/Reset/Sound.antt =====
-- What the steps of a password reset have checked when they succeed.
use Prim.Native.String.{len}
use go_with_me.Base.{
  ℕ, ◌*◌, ◌&&◌, String, false, not, some, ◌≡◌, arith, find?, inl, inr, Option-cases, =ₛ_iff, keep,
  update_where, ◌==◌,
}
use go_with_me.Base.Text.{trim_space}
use go_with_me.ApiError.{sentinel, unauthorized, bad_request_error}
use go_with_me.Models.{User, PasswordReset, is_expired, is_set}
use go_with_me.Claims.{Claims, purpose_password_reset}
use go_with_me.World.{World, Env, minute}
use go_with_me.Action.{ok, map_error, raise_if}
use go_with_me.Action.Rules.{>>=-ok, raise_if-ok}
use go_with_me.Base.Text.Normal.{normal_idem}
use go_with_me.Token.{purpose_claims, issue_purpose_token}
use go_with_me.Repository.Users
use go_with_me.Repository.Users.{has_email, normal_email}
use go_with_me.Repository.Resets
use go_with_me.Repository.Resets.{latest, is_pending, has_reset_id}
use go_with_me.Services.Auth.{AuthService}
use go_with_me.Services.Auth.Login.{or_default}
use go_with_me.Services.Auth.Reset.{verify_reset_email, use_reset, verify_user}

module _ (env : Env) (s : AuthService) where
  -- The user of this address, and its pending reset that this code opens.
  pub record MayReset (email otp : String) (w : World) (u : User) (r : PasswordReset) : Type 0 where
    pub found : find? (has_email (normal_email email)) w.users ≡ some u
    pub pending : latest (keep (is_pending u.id) w.resets) ≡ some r
    pub unexpired : is_expired r w.now ≡ false
    pub same_code : env.sha256_hex (trim_space otp) ≡ r.otp_hash

  -- The token is for this user, and good for `complete_password_reset` alone.
  abbrev pub reset_claims : User → ℕ → Claims
  reset_claims u now =
      purpose_claims env now u.id u.email purpose_password_reset
        (or_default (s.cfg.password_reset_jwt_minutes * minute) (30 * minute))

  -- The world with this reset used up.
  abbrev pub consumed : PasswordReset → World → World
  consumed r w = record w {
    resets =
        update_where (λ x. has_reset_id r.id x && not (is_set x.used_at))
          (λ x. record x { used_at = some w.now }) w.resets;
  }

  pub use_reset-checks :
      (otp : String) (u : User) (r : PasswordReset) (w : World) {token : String} {w' : World}
      → use_reset env s otp u r w ≡ (ok token, w')
      → (is_expired r w.now ≡ false)
        × (env.sha256_hex (trim_space otp) ≡ r.otp_hash)
        × (env.sign_jwt s.cfg.app_secret (reset_claims u w.now) ≡ some token)
        × (w' ≡ consumed r w)
  unfolding Resets.consume issue_purpose_token
  use_reset-checks otp u r w h =
      elim (Option-cases (env.sign_jwt s.cfg.app_secret (reset_claims u w.now))) [
        | inl unsigned ↦ absurd (ground arith)
        | inr (token, signed) ↦ (
          ground arith,
          ground (arith, =ₛ_iff (env.sha256_hex (trim_space otp)) r.otp_hash),
          ground arith,
          ground arith,
        )
      ]

  pending_reset :
      (id : ℕ) (w : World) {r : PasswordReset} {v : World}
      → map_error (λ _. sentinel unauthorized) (Resets.find_by_user_id env id) w ≡ (ok r, v)
      → (latest (keep (is_pending id) w.resets) ≡ some r) × (v ≡ w)
  unfolding Resets.find_by_user_id
  pending_reset id w h = ground arith

  user_of_address :
      (email : String) (w : World) {u : User} {v : World}
      → map_error (λ _. sentinel unauthorized) (Users.find_by_email env (normal_email email)) w
        ≡ (ok u, v)
      → (find? (has_email (normal_email email)) w.users ≡ some u) × (v ≡ w)
  unfolding Users.find_by_email
  user_of_address email w h = ground (arith, normal_idem email)

  -- A token for a new password comes out of `verify_reset_email` only for the newest pending reset of
  -- the address, not expired, and with a code that has its hash; the reset is then used up.
  pub verify_reset_email_sound :
      (email otp : String) (w : World) {token : String} {w' : World}
      → verify_reset_email env s email otp w ≡ (ok token, w')
      → (u : User) × (r : PasswordReset) × MayReset email otp w u r
        × (env.sign_jwt s.cfg.app_secret (reset_claims u w.now) ≡ some token)
        × (w' ≡ consumed r w)
  unfolding verify_reset_email
  verify_reset_email_sound email otp w {token} {w'} h =
      let (_, w₁, six, h₁) =
        >>=-ok (raise_if (not (len (trim_space otp) == 6)) (bad_request_error "invalid OTP code")) _
          h in
      let (_, same₁) =
        raise_if-ok (not (len (trim_space otp) == 6)) (bad_request_error "invalid OTP code") six in
      let (u, w₂, found, h₂) =
        >>=-ok
          (map_error (λ _. sentinel unauthorized) (Users.find_by_email env (normal_email email)))
          (verify_user env s otp) (rw same₁ at h₁) in
      let (row, same₂) = user_of_address email w found in
      let (r, w₃, pending, h₃) =
        >>=-ok (map_error (λ _. sentinel unauthorized) (Resets.find_by_user_id env u.id))
          (use_reset env s otp u) (rw same₂ at h₂) in
      let (newest, same₃) = pending_reset u.id w pending in
      let (fresh, same_code, signed, stored) = use_reset-checks otp u r w (rw same₃ at h₃) in
      (
        u,
        r,
        record { found = row; pending = newest; unexpired = fresh; same_code = same_code },
        signed,
        stored,
      )
