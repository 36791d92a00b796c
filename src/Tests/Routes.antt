-- ===== src/Tests/Routes.antt =====
-- Requests that reach the server.
use go_with_me.Base.{
  String, List, [], ◌∷◌, ◌≡◌, refl, ◌=ₛ◌, arith, true, none, some, ◌⊎◌, if◌then◌else◌,
}
use go_with_me.Base.Text.{to_lower, trim_space}
use go_with_me.Claims.{Claims, purpose_mfa}
use go_with_me.Models.Roles.{role_super_admin}
use go_with_me.World.{World}
use go_with_me.Repository.Users.{has_email, without_access, update_by_id}
use go_with_me.Changes.{Changes}
use go_with_me.App.Admins.{IsManaged}
use go_with_me.App.Access.{is_inactive_in, has_email-IsKey}
use go_with_me.Http.{HttpRequest}
use go_with_me.Http.Body.{Gin, bound, unbound}
use go_with_me.Http.Routes.{Server, handle, deactivate_user, verify_totp}
use go_with_me.Http.Guarded.{IsRefusal, IsAllowed, Carries, role_guard, purpose_guard}
use go_with_me.Http.Managed.{Event, serve_all, serve_all-IsManaged, serve_all-inactive}
use go_with_me.Tests.{town, libraries, settings}

abbrev pub bindings : Gin
bindings = record {
  bind_login = λ r. bound (record { email = "alice@x.io"; password = "right" });
  bind_verify_totp = λ r. bound (record { mfa_token = "mfa"; code = "123456" });
  bind_confirm_totp = λ r. bound (record { secret = "T"; code = "123456" });
  bind_forgot_password = λ r. bound (record { email = "alice@x.io" });
  bind_verify_reset_email = λ r. bound (record { email = "alice@x.io"; otp = "000042" });
  bind_complete_password_reset =
      λ r. bound (record { new_password = "a longer one"; totp_code = "123456" });
  bind_accept_invite =
      λ r. bound (record { invite_token = "invite"; name = "Carol"; password = "a longer one" });
  bind_update_user = λ r. unbound "EOF";
  bind_invite = λ r. bound (record { email = "carol@x.io"; name = "Carol"; role = "member" });
  parse_uuid = λ s. some 1;
}

abbrev pub server : Server
server = record {
  env = libraries;
  gin = bindings;
  redis = λ key w. some 1;
  ilike = λ s pattern. true;
  encode = λ r code. "{}";
  cfg = settings;
}

-- A request with this header, and the id of Alice in its path.
abbrev pub with_header : String → HttpRequest
with_header authorization = record {
  method = "DELETE";
  path = "/api/v1/users/1";
  raw_query = "";
  full_path = "/api/v1/users/:id";
  client_ip = "10.0.0.1";
  user_agent = "curl";
  request_id = "7";
  header = λ name. if name =ₛ "Authorization" then authorization else "";
  param = λ name. "1";
  query = λ name. none;
}

role_guard_example :
    IsRefusal 401 town (handle server deactivate_user (with_header "Bearer forged") town)
    ⊎ (IsRefusal 403 town (handle server deactivate_user (with_header "Bearer forged") town)
        ⊎ IsAllowed server (role_super_admin ∷ []) (with_header "Bearer forged") town)
role_guard_example =
    role_guard server deactivate_user (role_super_admin ∷ []) (with_header "Bearer forged") town
      refl

purpose_guard_example :
    IsRefusal 401 town (handle server verify_totp (with_header "Bearer mfa") town)
    ⊎ ((c : Claims) × Carries server (with_header "Bearer mfa") town c × (c.purpose ≡ purpose_mfa))
purpose_guard_example =
    purpose_guard server verify_totp purpose_mfa (with_header "Bearer mfa") town refl

town-IsManaged : IsManaged town
unfolding ◌=ₛ◌ to_lower trim_space
town-IsManaged = record {
  valid = (refl, refl, refl, refl, (refl, refl, refl, refl, tt));
  managed = omega arith;
}

-- A super admin asks twice for the removal of the only super admin.
abbrev pub removals : List Event
removals =
    record { time = 1; route = deactivate_user; request = with_header "Bearer session" }
    ∷ record { time = 1; route = deactivate_user; request = with_header "Bearer session" }
    ∷ []

serve_all-IsManaged_example : IsManaged (serve_all server removals town)
serve_all-IsManaged_example = serve_all-IsManaged server removals town town-IsManaged

abbrev without_bob : World
without_bob = update_by_id 2 (without_access 1000) town

bob_inactive : is_inactive_in (has_email "bob@x.io") without_bob.users ≡ true
unfolding ◌=ₛ◌
bob_inactive = refl

serve_all-inactive_example :
    is_inactive_in (has_email "bob@x.io") (serve_all server removals without_bob).users ≡ true
serve_all-inactive_example =
    serve_all-inactive (has_email "bob@x.io") (has_email-IsKey "bob@x.io") server removals
      without_bob bob_inactive
