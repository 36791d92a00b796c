-- ===== src/Http/Envelope/Services.antt =====
-- Every call of a service has standard errors.
use go_with_me.Base.{ℕ, String, Option, some, none}
use go_with_me.ApiError.{Error}
use go_with_me.Config.{Config}
use go_with_me.Claims.{Claims}
use go_with_me.Models.{User}
use go_with_me.World.{World, Env}
use go_with_me.Action.{Result, ok, err, attempt, bind_of}
use go_with_me.Token.{parse, issue_purpose_token}
use go_with_me.Repository.Users
use go_with_me.Repository.Users.{CreateUserParams, UpdateUserParams, normal_email}
use go_with_me.Repository.Users.Listing
use go_with_me.Repository.Users.Listing.{Ilike, ListUsersParams}
use go_with_me.Repository.Resets
use go_with_me.Services.Auth.{AuthService, with_purpose, token_user, issue_session}
use go_with_me.Services.Auth.Login.{login, login_found, record_failure, second_factor}
use go_with_me.Services.Auth.Totp.{verify_totp, setup_totp, confirm_totp}
use go_with_me.Services.Auth.Reset.{verify_reset_email, complete_password_reset}
use go_with_me.Services.Auth.Invite.{accept_invite}
use go_with_me.Services.UserAdmin
use go_with_me.Http.Envelope.{IsStandard}
use go_with_me.Http.Envelope.Errors.{Fails, IsGood, fails_rules}

module _ (env : Env) where
  pub find_by_id-Fails : (id : ℕ) → Fails (Users.find_by_id env id)
  unfolding Users.find_by_id
  find_by_id-Fails id = search fails_rules depth 10

  find_by_email-Fails : (email : String) → Fails (Users.find_by_email env email)
  unfolding Users.find_by_email
  find_by_email-Fails email = search fails_rules depth 10

  create-Fails : (params : CreateUserParams) → Fails (Users.create env params)
  unfolding Users.create
  create-Fails params = search fails_rules depth 12

  change-Fails : (id : ℕ) (params : UpdateUserParams) → Fails (Users.update env id params)
  unfolding Users.update Users.update_row
  change-Fails id params = search (fails_rules, find_by_id-Fails) depth 14

  update_password-Fails : (id : ℕ) (hash : String) → Fails (Users.update_password env id hash)
  unfolding Users.update_password
  update_password-Fails id hash = search fails_rules depth 12

  clear_lock-Fails : (id : ℕ) → Fails (Users.clear_lock env id)
  unfolding Users.clear_lock
  clear_lock-Fails id = search fails_rules depth 12

  remove-Fails : (id : ℕ) → Fails (Users.deactivate env id)
  unfolding Users.deactivate
  remove-Fails id = search fails_rules depth 12

  issue_purpose_token-Fails :
      (secret : String) (id : ℕ) (email purpose : String) (ttl : ℕ)
      → Fails (issue_purpose_token env secret id email purpose ttl)
  unfolding issue_purpose_token
  issue_purpose_token-Fails secret id email purpose ttl = search fails_rules depth 8

  parse-Fails : (text secret : String) → Fails (parse env text secret)
  unfolding parse
  parse-Fails text secret = search fails_rules depth 6

  with_purpose-Fails :
      (purpose : String) (claims : Option Claims) (e : Error)
      → IsStandard e
      → Fails (with_purpose purpose claims e)
  with_purpose-Fails purpose none e h = search fails_rules
  with_purpose-Fails purpose (some c) e h = search fails_rules

  reset-Fails : (id : ℕ) → Fails (Resets.find_by_user_id env id)
  unfolding Resets.find_by_user_id
  reset-Fails id = search fails_rules depth 10

ruleset service_rules = (
  fails_rules, find_by_id-Fails, find_by_email-Fails, create-Fails, change-Fails,
  update_password-Fails, clear_lock-Fails, remove-Fails, issue_purpose_token-Fails, parse-Fails,
  with_purpose-Fails, reset-Fails,
)

module _ (env : Env) (s : AuthService) where
  token_user-Fails : (text purpose : String) → Fails (token_user env s text purpose)
  unfolding token_user
  token_user-Fails text purpose = search service_rules depth 10

  issue_session-Fails : (u : User) → Fails (issue_session env s u)
  unfolding issue_session
  issue_session-Fails u = search service_rules depth 8

  record_failure-Fails : (u : User) → Fails (record_failure env s u)
  unfolding record_failure
  record_failure-Fails u = search service_rules depth 10

  second_factor-Fails : (u : User) → Fails (second_factor env s u)
  unfolding second_factor
  second_factor-Fails u = search service_rules depth 10

  login_found-Fails : (password : String) (u : User) → Fails (login_found env s password u)
  unfolding login_found
  login_found-Fails password u =
      search (service_rules, record_failure-Fails, second_factor-Fails) depth 12

  pub login-Fails : (email password : String) → Fails (login env s email password)
  unfolding login
  login-Fails email password = search (service_rules, login_found-Fails) depth 10

  pub verify_totp-Fails : (token code : String) → Fails (verify_totp env s token code)
  unfolding verify_totp
  verify_totp-Fails token code =
      search (service_rules, token_user-Fails, issue_session-Fails) depth 12

  pub setup_totp-Fails : (token : String) → Fails (setup_totp env s token)
  unfolding setup_totp
  setup_totp-Fails token = search (service_rules, token_user-Fails) depth 10

  pub confirm_totp-Fails :
      (token secret code : String) → Fails (confirm_totp env s token secret code)
  unfolding confirm_totp
  confirm_totp-Fails token secret code =
      search (service_rules, token_user-Fails, issue_session-Fails) depth 14

  pub verify_reset_email-Fails : (email otp : String) → Fails (verify_reset_email env s email otp)
  unfolding verify_reset_email
  verify_reset_email-Fails email otp = search service_rules depth 16

  pub complete_password_reset-Fails :
      (token password code : String) → Fails (complete_password_reset env s token password code)
  unfolding complete_password_reset
  complete_password_reset-Fails token password code =
      search (service_rules, token_user-Fails) depth 14

  pub accept_invite-Fails :
      (token name password : String) → Fails (accept_invite env s token name password)
  unfolding accept_invite
  accept_invite-Fails token name password = search service_rules depth 18

module _ (env : Env) (cfg : Config) where
  pub get-Fails : (id : ℕ) → Fails (UserAdmin.get env id)
  unfolding UserAdmin.get
  get-Fails id = search service_rules

  -- An error of the look-up is passed on.
  refuse-IsGood :
      (p : Result User × World)
      → IsGood p.0
      → IsGood (bind_of UserAdmin.refuse_existing (attempt (λ w. p) p.1)).0
  refuse-IsGood (ok u, w) h =
      let refused : Fails (UserAdmin.refuse_existing (ok u)) = search service_rules in refused.at w
  refuse-IsGood (err e, w) h =
      let passed : Fails (UserAdmin.refuse_existing (err e)) = search (service_rules, h) in
      passed.at w

  require_unused-Fails : (email : String) → Fails (UserAdmin.require_unused env email)
  unfolding UserAdmin.require_unused
  require_unused-Fails email = record {
    at = λ w.
        refuse-IsGood (Users.find_by_email env (normal_email email) w)
          ((find_by_email-Fails env (normal_email email)).at w);
  }

  pub invite-Fails : (email name role : String) → Fails (UserAdmin.invite env cfg email name role)
  unfolding UserAdmin.invite UserAdmin.invite_new UserAdmin.issue_invite
  invite-Fails email name role = search (service_rules, require_unused-Fails) depth 16

  pub update-Fails : (id : ℕ) (params : UpdateUserParams) → Fails (UserAdmin.update env id params)
  unfolding UserAdmin.update
  update-Fails id params = search service_rules depth 12

  pub deactivate-Fails : (id : ℕ) → Fails (UserAdmin.deactivate env id)
  unfolding UserAdmin.deactivate
  deactivate-Fails id = search service_rules depth 12

  pub list-Fails : (ilike : Ilike) (p : ListUsersParams) → Fails (Listing.list env ilike p)
  unfolding Listing.list
  list-Fails ilike p = search service_rules depth 8
