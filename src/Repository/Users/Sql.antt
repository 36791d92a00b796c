-- ===== src/Repository/Users/Sql.antt =====
-- The statements of `List` and `Update` of internal/repository/implementation/user.go, as they are put
-- together and as PostgreSQL runs them.
pub mod Built
pub mod Update
use Prim.Native.String.{◌++◌ as text_append}
use go_with_me.Base.{
  ℕ, ◌+◌, ◌^◌, String, Bool, true, false, ◌&&◌, ◌||◌, not, Option, none, some, List, [], ◌∷◌, ◌++◌,
  ◌=ₛ◌, leb, if◌then◌else◌, count, keep, take, drop, map, all, find?,
}
use go_with_me.Base.Text.{trim_space}
use go_with_me.ApiError.{Error, plain, wrapped, no_rows}
use go_with_me.Models.{User}
use go_with_me.Models.Roles.{is_role}
use go_with_me.World.{World, Env, count_users, list_users, update_user}
use go_with_me.Action.{
  Action, Result, ok, err, pure, gets, or_raise, map_error, wrap, query, modify, raise_if, ◌>>=◌,
  ◌>>◌,
}
use go_with_me.Pagination.{Params, offset}
use go_with_me.Repository.Newest.{newest_first}
use go_with_me.Repository.Sql.{
  Value, null, uuid, int, time, text, bool, Building, nothing_built, with_clause, arg, int_arg,
}
use go_with_me.Repository.Users.{
  UpdateUserParams, has_id, update_by_id, find_by_id, not_found_on_no_rows,
}
use go_with_me.Repository.Users.Listing.{Ilike, ListUsersParams}
use go_with_me.Repository.Users.Rows.{row, scan_user_row, scan_user-row}
use go_with_me.Repository.Sql.Paging.{Listable, run_built}

-- `role = $k`, and `(name ILIKE $k OR email ILIKE $k)`.
pub data Condition : Type 0 where
  role_is name_or_email_like : ℕ → Condition

abbrev pub add_role : Option String → Building Condition → Building Condition
add_role none b = b
add_role (some role) b = with_clause role_is (text role) b

abbrev pub add_search : Option String → Building Condition → Building Condition
add_search none b = b
add_search (some search) b =
    if search =ₛ ""
    then b
    else with_clause name_or_email_like (text (text_append "%" (text_append search "%"))) b

unfoldable pub list_query : ListUsersParams → Building Condition
list_query p = add_search p.search (add_role p.role nothing_built)

-- How PostgreSQL reads a condition: a role that is none of the enum's values is an error.
abbrev pub is_typed_by : Value → Condition → Bool
is_typed_by (text s) (role_is k) = is_role s
is_typed_by _ (role_is k) = false
is_typed_by _ (name_or_email_like k) = true

abbrev pub condition_arg : Condition → ℕ
condition_arg (role_is k) = k
condition_arg (name_or_email_like k) = k

abbrev pub is_typed : List Value → Condition → Bool
is_typed args c = is_typed_by (arg args (condition_arg c)) c

abbrev pub holds_by : Ilike → Value → Condition → User → Bool
holds_by ilike (text s) (role_is k) u = u.role =ₛ s
holds_by ilike (text s) (name_or_email_like k) u = ilike u.name s || ilike u.email s
holds_by ilike _ c u = false

abbrev pub holds : Ilike → List Value → User → Condition → Bool
holds ilike args u c = holds_by ilike (arg args (condition_arg c)) c u

abbrev pub users_table : Ilike → Listable User Condition
users_table ilike = record {
  rows = λ w. w.users;
  created_at = λ u. u.created_at;
  is_typed = is_typed;
  holds = holds ilike;
  row = row;
  scan = scan_user_row;
  scan-row = scan_user-row;
  counts = count_users;
  lists = list_users;
  count_failed = "count users";
  list_failed = "list users";
  scan_failed = "scan user row";
}

unfoldable pub list : Env → Ilike → ListUsersParams → Action (List User × ℕ)
unfolding list_query
list env ilike p = run_built env (users_table ilike) p.params (list_query p)
