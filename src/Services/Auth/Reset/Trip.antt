-- ===== src/Services/Auth/Reset/Trip.antt =====
-- The way of a code from `forgot_password` to `verify_reset_email`.
use Prim.Native.String.{len}
use go_with_me.Base.{
  ℕ, ◌+◌, ◌*◌, ◌≤◌, ◌<◌, ◌&&◌, String, true, not, some, List, [], ◌∷◌, ◌≡◌, refl, arith, find?,
  keep, update_where, =ₛ_iff, ==_iff,
}
use go_with_me.Base.Text.{trim_space}
use go_with_me.Base.Text.Normal.{normal_idem}
use go_with_me.Base.Text.Digits.{trim_space-IsDigits}
use go_with_me.ApiError.{sentinel, unauthorized, not_found}
use go_with_me.Config.{Config}
use go_with_me.Models.{User, PasswordReset, is_expired, is_set, is_consumed}
use go_with_me.World.{World, Env, IsUp, Statement, minute}
use go_with_me.Action.{ok, err}
use go_with_me.Token.{issue_purpose_token}
use go_with_me.Repository.Users.{has_email, normal_email}
use go_with_me.Repository.Users.Laws.{find_by_email-up}
use go_with_me.Repository.Resets
use go_with_me.Repository.Resets.{
  latest, of_user, is_pending, has_reset_id, new_reset, CreatePasswordResetParams,
}
use go_with_me.Services.Auth.{AuthService, wired_auth_service, log_notifier, new_auth_service}
use go_with_me.Services.Auth.Reset.{
  forgot_password, start_reset, random_otp6, verify_reset_email, use_reset,
}
use go_with_me.Services.Auth.Reset.Otp.{otp_text}
use go_with_me.Services.Auth.Reset.Digits.{otp_text_lem}
use go_with_me.Services.Auth.Reset.Sound.{reset_claims, consumed}

abbrev pub others : ℕ → List PasswordReset → List PasswordReset
others user_id = keep (λ r. not (of_user user_id r))

-- The others stay the others when a reset of theirs, or of nobody's, is used up.
none_pending :
    (user_id id now : ℕ) (rs : List PasswordReset)
    → keep (is_pending user_id) (
        update_where
          (λ x. has_reset_id id x && not (is_set x.used_at))
          (λ x. record x { used_at = some now })
          (others user_id rs))
      ≡ []
none_pending user_id id now [] = refl
none_pending user_id id now (r ∷ rs) = ground (arith, none_pending user_id id now rs)

none_pending_before :
    (user_id : ℕ) (rs : List PasswordReset) → keep (is_pending user_id) (others user_id rs) ≡ []
none_pending_before user_id [] = refl
none_pending_before user_id (r ∷ rs) = ground (arith, none_pending_before user_id rs)

module _ (env : Env) (cfg : Config) where
  abbrev pub service : AuthService
  service = wired_auth_service cfg

  -- The world in which the user has no reset.
  abbrev pub cleared : User → World → World
  cleared u w = record w { resets = others u.id w.resets }

  abbrev pub started_reset : User → ℕ → World → PasswordReset
  started_reset u n w =
      new_reset
        (record {
          user_id = u.id;
          otp_hash = env.sha256_hex (otp_text n);
          expires_at = w.now + cfg.password_reset_otp_minutes * minute;
        })
        (env.new_id (cleared u w)) w.now

  -- The world after the code of `n` is stored and sent to the user.
  abbrev pub started : User → ℕ → World → World
  started u n w = record w {
    resets = started_reset u n w ∷ others u.id w.resets;
    notified = (u.email, otp_text n) ∷ w.notified;
  }

  -- `ForgotPassword` for the address of an active user stores one reset, in place of all that the user
  -- had, and sends the code.
  forgot_password_lem :
      (email : String) (u : User) (n : ℕ) (w : World)
      → IsUp env
      → find? (has_email (normal_email email)) w.users ≡ some u
      → u.is_active ≡ true
      → env.random_below w 1_000_000 ≡ some n
      → Resets.is_insertable (started_reset u n w) (cleared u w) ≡ true
      → forgot_password env service email w ≡ (ok tt, started u n w)
  unfolding forgot_password start_reset random_otp6 Resets.create new_auth_service log_notifier
  forgot_password_lem email u n w up found active drawn fits = ground (
    arith,
    find_by_email-up env up (normal_email email) w {u = u} (rw (normal_idem email) found),
    up Statement.delete_resets w,
    up Statement.create_reset (cleared u w),
  )

  abbrev pub later : ℕ → World → World
  later time w = record w { now = w.now + time }

  only_reset :
      (u : User) (n time : ℕ) (w : World)
      → latest (keep (is_pending u.id) (later time (started u n w)).resets)
        ≡ some (started_reset u n w)
  only_reset u n time w = ground (arith, none_pending_before u.id w.resets, ==_iff u.id u.id)

  reset-up :
      (id : ℕ) (r : PasswordReset) (w : World)
      → IsUp env
      → latest (keep (is_pending id) w.resets) ≡ some r
      → Resets.find_by_user_id env id w ≡ (ok r, w)
  unfolding Resets.find_by_user_id
  reset-up id r w up newest = ground (arith, up Statement.find_reset w)

  use_reset-ok :
      (u : User) (n time : ℕ) (w : World) (token : String)
      → IsUp env
      → n < 1_000_000
      → time ≤ cfg.password_reset_otp_minutes * minute
      → env.sign_jwt cfg.app_secret (reset_claims env service u (w.now + time)) ≡ some token
      → let w' : World = later time (started u n w) in
        use_reset env service (otp_text n) u (started_reset u n w) w'
        ≡ (ok token, consumed env service (started_reset u n w) w')
  unfolding Resets.consume issue_purpose_token is_expired is_consumed new_auth_service
  use_reset-ok u n time w token up small soon signed = ground (
    arith,
    trim_space-IsDigits (otp_text n) (otp_text_lem n small).0,
    up Statement.consume (later time (started u n w)),
    ==_iff (env.new_id (cleared u w)) (env.new_id (cleared u w)),
    =ₛ_iff (env.sha256_hex (otp_text n)) (env.sha256_hex (otp_text n)),
  )

  -- Where the database answers, a number below a million is drawn, the new row breaks no constraint
  -- and the token is signed: `forgot_password` for the address of an active user sends a code, and
  -- until that expires the code makes `verify_reset_email` answer the token to set a new password;
  -- the reset is then used up.
  pub reset_round_trip :
      (email : String) (u : User) (n time : ℕ) (w : World) (token : String)
      → IsUp env
      → find? (has_email (normal_email email)) w.users ≡ some u
      → u.is_active ≡ true
      → env.random_below w 1_000_000 ≡ some n
      → n < 1_000_000
      → Resets.is_insertable (started_reset u n w) (cleared u w) ≡ true
      → time ≤ cfg.password_reset_otp_minutes * minute
      → env.sign_jwt cfg.app_secret (reset_claims env service u (w.now + time)) ≡ some token
      → let w' : World = later time (started u n w) in
        (forgot_password env service email w ≡ (ok tt, started u n w))
        × (verify_reset_email env service email (otp_text n) w'
            ≡ (ok token, consumed env service (started_reset u n w) w'))
  unfolding verify_reset_email
  reset_round_trip email u n time w token up found active drawn small fits soon signed = (
    forgot_password_lem email u n w up found active drawn fits,
    ground (
      arith,
      trim_space-IsDigits (otp_text n) (otp_text_lem n small).0,
      (otp_text_lem n small).1,
      find_by_email-up env up (normal_email email) (later time (started u n w)) {u = u}
          (rw (normal_idem email) found),
      reset-up u.id (started_reset u n w) (later time (started u n w)) up (only_reset u n time w),
      use_reset-ok u n time w token up small soon signed,
    ),
  )

  no_reset :
      (id : ℕ) (w : World)
      → IsUp env
      → keep (is_pending id) w.resets ≡ []
      → Resets.find_by_user_id env id w ≡ (err (sentinel not_found), w)
  unfolding Resets.find_by_user_id
  no_reset id w up spent = ground (arith, up Statement.find_reset w)

  spent :
      (u : User) (n time time' : ℕ) (w : World)
      → keep
          (is_pending u.id)
          (later time'
            (consumed env service (started_reset u n w) (later time (started u n w)))).resets
        ≡ []
  spent u n time time' w = ground (
    arith,
    none_pending u.id (env.new_id (cleared u w)) (w.now + time) w.resets,
    ==_iff (env.new_id (cleared u w)) (env.new_id (cleared u w)),
  )

  -- After a code has opened its reset, with the database answering, no code of six bytes opens one
  -- for the address, this code neither: the answer is 401 and nothing is written.
  pub reset_once :
      (email otp : String) (u : User) (n time time' : ℕ) (w : World)
      → IsUp env
      → find? (has_email (normal_email email)) w.users ≡ some u
      → len (trim_space otp) ≡ 6
      → let used : World =
          later time' (consumed env service (started_reset u n w) (later time (started u n w))) in
        verify_reset_email env service email otp used ≡ (err (sentinel unauthorized), used)
  unfolding verify_reset_email
  reset_once email otp u n time time' w up found six =
      let used : World =
        later time' (consumed env service (started_reset u n w) (later time (started u n w))) in
      ground (
        arith,
        find_by_email-up env up (normal_email email) used {u = u} (rw (normal_idem email) found),
        no_reset u.id used up (spent u n time time' w),
      )
