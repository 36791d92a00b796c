-- ===== src/Services/Auth/Guards.antt =====
-- The tokens that the flows refuse.
use go_with_me.Base.{
  String, Bool, true, not, Option, some, none, ◌≡◌, refl, arith, Option-cases, ◌=ₛ◌,
}
use go_with_me.ApiError.{Error, sentinel, unauthorized, bad_request_error}
use go_with_me.Claims.{
  Claims, purpose_mfa, purpose_totp_setup, purpose_password_reset, purpose_invite,
}
use go_with_me.World.{World, Env}
use go_with_me.Action.{err}
use go_with_me.Token.{parse_at, parse}
use go_with_me.Services.Auth.{AuthService, require_claims}
use go_with_me.Services.Auth.Totp.{verify_totp, setup_totp, confirm_totp}
use go_with_me.Services.Auth.Reset.{complete_password_reset}
use go_with_me.Services.Auth.Invite.{accept_invite}

-- Some other purpose than this one, or no claims at all.
abbrev pub lacks_purpose : String → Option Claims → Bool
lacks_purpose purpose none = true
lacks_purpose purpose (some c) = not (c.purpose =ₛ purpose)

-- The flows that a token opens.
pub data TokenFlow : Type 0 where
  mfa totp_setup totp_confirm reset invite : TokenFlow

abbrev pub purpose_of : TokenFlow → String
purpose_of mfa = purpose_mfa
purpose_of totp_setup = purpose_totp_setup
purpose_of totp_confirm = purpose_totp_setup
purpose_of reset = purpose_password_reset
purpose_of invite = purpose_invite

module _ (env : Env) (s : AuthService) where
  -- The flow fails and leaves the world as it is, whatever else it is given.
  abbrev pub IsRefused : TokenFlow → String → World → Type 0
  IsRefused mfa text w =
      (code : String) → verify_totp env s text code w ≡ (err (sentinel unauthorized), w)
  IsRefused totp_setup text w = setup_totp env s text w ≡ (err (sentinel unauthorized), w)
  IsRefused totp_confirm text w =
      (secret code : String)
      → confirm_totp env s text secret code w ≡ (err (sentinel unauthorized), w)
  IsRefused reset text w =
      (password code : String)
      → complete_password_reset env s text password code w ≡ (err (sentinel unauthorized), w)
  IsRefused invite text w =
      (name password : String)
      → accept_invite env s text name password w
        ≡ (err (bad_request_error "invalid or expired invite token"), w)

  require_claims-refuses :
      (text purpose : String) (e : Error) (w : World)
      → lacks_purpose purpose (parse_at env w.now text s.cfg.app_secret) ≡ true
      → require_claims env s text purpose e w ≡ (err e, w)
  unfolding parse
  require_claims-refuses text purpose e w lacks =
      ground (arith, Option-cases (parse_at env w.now text s.cfg.app_secret))

  -- Each flow takes only the tokens of its own purpose: with a token of another purpose, or one
  -- that does not parse, it fails and writes nothing, whatever else it is given.
  pub purposes_apart :
      (flow : TokenFlow) (text : String) (w : World)
      → lacks_purpose (purpose_of flow) (parse_at env w.now text s.cfg.app_secret) ≡ true
      → IsRefused flow text w
  unfolding verify_totp setup_totp confirm_totp complete_password_reset accept_invite
  purposes_apart mfa text w lacks =
      rw (require_claims-refuses text purpose_mfa (sentinel unauthorized) w lacks) (λ code. refl)
  purposes_apart totp_setup text w lacks =
      rw (require_claims-refuses text purpose_totp_setup (sentinel unauthorized) w lacks) refl
  purposes_apart totp_confirm text w lacks =
      rw (require_claims-refuses text purpose_totp_setup (sentinel unauthorized) w lacks)
        (λ _ _. refl)
  purposes_apart reset text w lacks =
      rw (require_claims-refuses text purpose_password_reset (sentinel unauthorized) w lacks)
        (λ _ _. refl)
  purposes_apart invite text w lacks =
      rw
        (require_claims-refuses text purpose_invite
          (bad_request_error "invalid or expired invite token") w lacks)
        (λ _ _. refl)
