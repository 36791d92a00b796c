-- ===== src/Services/Auth/Reset/AtOnce.antt =====
-- Calls of `VerifyResetEmail` at once: each finds a reset, and uses it later, when other calls may have
-- used it. What stands between two statements of a call is split there, and a call is its two parts.
use go_with_me.Base.{
  ℕ, String, Bool, true, false, not, ◌&&◌, some, List, [], ◌∷◌, ◌≡◌, refl, arith, any, keep,
  update_where, ◌==◌, Bool-cases, inl, inr,
}
use Prim.Native.String.{len}
use go_with_me.Base.Text.{trim_space}
use go_with_me.ApiError.{sentinel, unauthorized, bad_request_error}
use go_with_me.Models.{User, PasswordReset, is_set}
use go_with_me.World.{World, Env}
use go_with_me.Action.{
  Action, Result, ok, err, bind_of, pure, map_error, raise_if, ◌>>=◌, ◌>>◌, modify,
}
use go_with_me.Action.Keeps.{Keeps, Keeps-modify, keeps_rules}
use go_with_me.Token.{issue_purpose_token}
use go_with_me.Repository.Users
use go_with_me.Repository.Users.{normal_email}
use go_with_me.Repository.Resets
use go_with_me.Repository.Resets.{has_reset_id}
use go_with_me.Services.Auth.{AuthService}
use go_with_me.Services.Auth.Reset.Sound.{use_reset-checks}
use go_with_me.Services.Auth.Reset.{use_reset, verify_user, verify_reset_email}

abbrev pub is_open_reset : ℕ → PasswordReset → Bool
is_open_reset id r = has_reset_id id r && not (is_set r.used_at)

-- No reset with this id is left to be used.
abbrev pub IsUsedUp : ℕ → World → Type 0
IsUsedUp id w = any (is_open_reset id) w.resets ≡ false

update-used :
    (id k now : ℕ) (rs : List PasswordReset)
    → any (is_open_reset id) rs ≡ false
    → any
        (is_open_reset id)
        (update_where (is_open_reset k) (λ r. record r { used_at = some now }) rs)
      ≡ false
update-used id k now [] h = refl
update-used id k now (r ∷ rs) h = ground (arith, update-used id k now rs)

update-uses :
    (id now : ℕ) (rs : List PasswordReset)
    → any
        (is_open_reset id)
        (update_where (is_open_reset id) (λ r. record r { used_at = some now }) rs)
      ≡ false
update-uses id now [] = refl
update-uses id now (r ∷ rs) = ground (arith, update-uses id now rs)

pub keep-used :
    (id : ℕ) (p : PasswordReset → Bool) (rs : List PasswordReset)
    → any (is_open_reset id) rs ≡ false
    → any (is_open_reset id) (keep p rs) ≡ false
keep-used id p [] h = refl
keep-used id p (r ∷ rs) h = ground (arith, keep-used id p rs)

module _ (env : Env) (s : AuthService) where
  -- What `VerifyResetEmail` does up to finding the reset.
  abbrev pub find_reset_of : User → Action (User × PasswordReset)
  find_reset_of u = do
    reset ← map_error (λ _. sentinel unauthorized) (Resets.find_by_user_id env u.id)
    pure (u, reset)

  unfoldable pub look_up : String → String → Action (User × PasswordReset)
  look_up email otp = do
    raise_if (not (len (trim_space otp) == 6)) (bad_request_error "invalid OTP code")
    u ← map_error (λ _. sentinel unauthorized) (Users.find_by_email env (normal_email email))
    find_reset_of u

  -- `Consume` makes no used reset open again.
  use_up-Keeps :
      (id k : ℕ)
      → Keeps (IsUsedUp id) (
          modify (λ w. record w {
            resets =
                update_where (is_open_reset k) (λ r. record r { used_at = some w.now }) w.resets;
          }))
  use_up-Keeps id k = Keeps-modify _ (λ w h. update-used id k w.now w.resets h)

  pub use_reset-Keeps :
      (id : ℕ) (otp : String) (u : User) (r : PasswordReset)
      → Keeps (IsUsedUp id) (use_reset env s otp u r)
  unfolding Resets.consume issue_purpose_token
  use_reset-Keeps id otp u r = search (keeps_rules, use_up-Keeps) depth 16

  -- It succeeds only on an open reset.
  pub was_open :
      (otp : String) (u : User) (r : PasswordReset) (w : World) {token : String} {w' : World}
      → use_reset env s otp u r w ≡ (ok token, w')
      → any (is_open_reset r.id) w.resets ≡ true
  unfolding Resets.consume issue_purpose_token
  was_open otp u r w h = ground arith

  pub uses_up :
      (otp : String) (u : User) (r : PasswordReset) (w : World) {token : String} {w' : World}
      → use_reset env s otp u r w ≡ (ok token, w')
      → IsUsedUp r.id w'
  uses_up otp u r w h =
      let used = (use_reset-checks env s otp u r w h).3 in rw used (update-uses r.id w.now w.resets)

  -- A call is its look-up, and then its use.
  find_then_use :
      (otp : String) (u : User) (p : Result PasswordReset × World)
      → bind_of (use_reset env s otp u) p
        ≡ bind_of (λ (v, r). use_reset env s otp v r) (bind_of (λ r. pure (u, r)) p)
  find_then_use otp u (ok r, w) = refl
  find_then_use otp u (err e, w) = refl

  user_then_use :
      (otp : String) (p : Result User × World)
      → bind_of (verify_user env s otp) p
        ≡ bind_of (λ (u, r). use_reset env s otp u r) (bind_of find_reset_of p)
  user_then_use otp (ok u, w) =
      find_then_use otp u
        (map_error (λ _. sentinel unauthorized) (Resets.find_by_user_id env u.id) w)
  user_then_use otp (err e, w) = refl

  pub verify_reset_email-split :
      (email otp : String) (w : World)
      → verify_reset_email env s email otp w
        ≡ (look_up email otp >>= λ (u, r). use_reset env s otp u r) w
  unfolding verify_reset_email look_up
  verify_reset_email-split email otp w = elim (Bool-cases (len (trim_space otp) == 6)) [
    | inr short ↦ rw short refl
    | inl six ↦ rw six (
        user_then_use otp
          (map_error (λ _. sentinel unauthorized) (Users.find_by_email env (normal_email email)) w))
  ]
