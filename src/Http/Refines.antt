-- ===== src/Http/Refines.antt =====
-- The routes, as sequences of the writes of `Changes`.
use go_with_me.World.{World}
use go_with_me.Changes.{Changes}
use go_with_me.Http.{HttpRequest, nobody}
use go_with_me.Http.Keeps.{
  Serves, Serves-rate_limit, Serves-require_purpose, Serves-require_role, Serves-audit,
}
use go_with_me.Http.RequestId.{identified}
use go_with_me.Http.Routes.{
  Route, Server, handle, endpoint, health, ready, login, forgot_password, verify_reset_email,
  accept_invite, verify_totp, setup_totp, confirm_totp, complete_password_reset, me, list_users,
  get_user, update_user, invite_user, deactivate_user,
}
use go_with_me.Http.Calls.{
  create-Changes, login-Serves, verify_totp-Serves, setup_totp-Serves, confirm_totp-Serves,
  forgot_password-Serves, verify_reset_email-Serves, complete_password_reset-Serves,
  accept_invite-Serves, me-Serves, list-Serves, get-Serves, update-Serves, invite-Serves,
  deactivate-Serves,
}

-- Each route, with its middleware.
module _ (s : Server) {w₀ : World} where
  pub endpoint-Serves : (route : Route) → Serves (Changes w₀) (endpoint s route)
  endpoint-Serves health = record { at = λ r i w h. h }
  endpoint-Serves ready = record { at = λ r i w h. h }
  endpoint-Serves login = record {
    at = λ r i w h. (Serves-rate_limit _ _ _ _ (login-Serves s.env s.gin s.cfg)).at r i w h;
  }
  endpoint-Serves forgot_password = record {
    at = λ r i w h.
        (Serves-rate_limit _ _ _ _ (forgot_password-Serves s.env s.gin s.cfg)).at r i w h;
  }
  endpoint-Serves verify_reset_email = record {
    at = λ r i w h.
        (Serves-rate_limit _ _ _ _ (verify_reset_email-Serves s.env s.gin s.cfg)).at r i w h;
  }
  endpoint-Serves accept_invite = record {
    at = λ r i w h. (Serves-rate_limit _ _ _ _ (accept_invite-Serves s.env s.gin s.cfg)).at r i w h;
  }
  endpoint-Serves verify_totp = record {
    at = λ r i w h.
        (Serves-require_purpose _ _ _ _ (verify_totp-Serves s.env s.gin s.cfg)).at r i w h;
  }
  endpoint-Serves setup_totp = record {
    at = λ r i w h.
        (Serves-require_purpose _ _ _ _ (setup_totp-Serves s.env s.gin s.cfg)).at r i w h;
  }
  endpoint-Serves confirm_totp = record {
    at = λ r i w h.
        (Serves-require_purpose _ _ _ _ (confirm_totp-Serves s.env s.gin s.cfg)).at r i w h;
  }
  endpoint-Serves complete_password_reset = record {
    at = λ r i w h.
        (Serves-require_purpose _ _ _ _ (complete_password_reset-Serves s.env s.gin s.cfg)).at r i w
          h;
  }
  endpoint-Serves me = record {
    at = λ r i w h. (Serves-require_purpose _ _ _ _ (me-Serves s.env s.gin s.cfg)).at r i w h;
  }
  endpoint-Serves list_users = record {
    at = λ r i w h.
        (Serves-require_purpose _ _ _ _ (
            Serves-require_role _ _
              (Serves-rate_limit _ _ _ _ (list-Serves s.env s.gin s.cfg s.ilike)))).at
          r i w h;
  }
  endpoint-Serves get_user = record {
    at = λ r i w h.
        (Serves-require_purpose _ _ _ _ (Serves-require_role _ _ (get-Serves s.env s.gin s.cfg))).at
          r i w h;
  }
  endpoint-Serves update_user = record {
    at = λ r i w h.
        (Serves-require_purpose _ _ _ _
            (Serves-require_role _ _ (update-Serves s.env s.gin s.cfg))).at
          r i w h;
  }
  endpoint-Serves invite_user = record {
    at = λ r i w h.
        (Serves-require_purpose _ _ _ _ (
            Serves-require_role _ _ (
              Serves-rate_limit _ _ _ _ (
                Serves-audit _ _ _ _ _ (create-Changes s.env s.encode)
                  (invite-Serves s.env s.gin s.cfg))))).at
          r i w h;
  }
  endpoint-Serves deactivate_user = record {
    at = λ r i w h.
        (Serves-require_purpose _ _ _ _ (
            Serves-require_role _ _ (
              Serves-audit _ _ _ _ _ (create-Changes s.env s.encode)
                (deactivate-Serves s.env s.gin s.cfg)))).at
          r i w h;
  }

  pub handle-Changes : (route : Route) (r : HttpRequest) → Changes w₀ (handle s route r w₀).1
  unfolding handle
  handle-Changes route r = (endpoint-Serves route).at (identified s.env w₀ r) nobody w₀ Changes.here
