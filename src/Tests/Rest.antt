-- ===== src/Tests/Rest.antt =====
-- An invitation, the first admin, and the pages of a listing.
use go_with_me.Base.{List, [], ◌∷◌, ◌≡◌, refl, ◌=ₛ◌, ◌≤◌, true, false, none, some}
use go_with_me.Base.Text.{to_lower, trim_space}
use go_with_me.Models.{User}
use go_with_me.World.{World, IsUp}
use go_with_me.Action.{ok}
use go_with_me.Repository.Users
use go_with_me.Repository.Users.{new_user, without_access, is_insertable, update_by_id}
use go_with_me.Repository.Users.Listing.{Ilike, ListUsersParams}
use go_with_me.Token.{issue_purpose_token}
use go_with_me.Services.Auth.{session_result}
use go_with_me.Services.Auth.Login.{login}
use go_with_me.Services.Auth.Bootstrap.{ensure_bootstrap_admin}
use go_with_me.Services.UserAdmin.{invite, invite_new, issue_invite, require_unused, invited_params}
use go_with_me.App.{Request, run, accept_invite, wait}
use go_with_me.App.Invited.{invited_locked_out}
use go_with_me.App.FirstAdmin.{first_admin, ensure_bootstrap_admin_lem}
use go_with_me.App.Admins.{IsManaged}
use go_with_me.Http.{HttpRequest}
use go_with_me.Pagination.{Params, parse_params}
use go_with_me.Pagination.Laws.{parse_params_lem}
use go_with_me.Tests.{town, libraries, settings, auth}

up : IsUp libraries
up s w = refl

abbrev carol : User
carol = new_user (invited_params "Carol@x.io" "Carol" "member") 3 1000

abbrev invited_town : World
invited_town = update_by_id 3 (without_access 1000) (record town { users = carol ∷ town.users })

invitation :
    invite libraries settings "Carol@x.io" "Carol" "member" town ≡ (ok "invite", invited_town)
unfolding invite invite_new issue_invite require_unused issue_purpose_token ◌=ₛ◌ to_lower trim_space
    Users.create Users.find_by_email Users.deactivate
invitation = refl

-- Carol accepts, and tries to log in.
abbrev acceptance : List Request
acceptance = accept_invite "invite" "Carol" "a longer one" ∷ wait 5 ∷ []

invited_locked_out_example : ¬ (
    login libraries auth "Carol@x.io" "a longer one"
      (run libraries settings acceptance invited_town)
    ≡ (ok (session_result "session" 0), town))
invited_locked_out_example =
    invited_locked_out libraries settings "Carol@x.io" "Carol" "member" town invitation acceptance
      "a longer one" (session_result "session" 0) town

abbrev bare : World
bare = record town { users = [] }

filled_email : (settings.bootstrap_admin_email =ₛ "") ≡ false
unfolding ◌=ₛ◌
filled_email = refl

filled_password : (settings.bootstrap_admin_password =ₛ "") ≡ false
unfolding ◌=ₛ◌
filled_password = refl

fits : is_insertable (new_user (first_admin settings "#root password") 3 1000) bare ≡ true
unfolding ◌=ₛ◌
fits = refl

abbrev started : World
started = (ensure_bootstrap_admin libraries settings bare).1

ensure_bootstrap_admin_lem_example :
    IsManaged started × (ensure_bootstrap_admin libraries settings started ≡ (ok tt, started))
ensure_bootstrap_admin_lem_example =
    ensure_bootstrap_admin_lem libraries settings "#root password" bare up tt filled_email
      filled_password refl fits

abbrev by_ten : HttpRequest
by_ten = record {
  method = "GET";
  path = "/api/v1/users";
  raw_query = "page=10";
  full_path = "/api/v1/users";
  client_ip = "10.0.0.1";
  user_agent = "curl";
  request_id = "7";
  header = λ name. "";
  param = λ name. "";
  query = λ name. some "10";
}

parse_params_lem_example :
    (1 ≤ (parse_params by_ten).page)
    × (1 ≤ (parse_params by_ten).page_size)
    × ((parse_params by_ten).page_size ≤ 100)
parse_params_lem_example = parse_params_lem by_ten

abbrev two : Params
two = record { page = 1; page_size = 2 }

abbrev everyone : Ilike
everyone text pattern = true

abbrev all_users : ListUsersParams
all_users = record { role = none; search = some "x.io"; params = two }
