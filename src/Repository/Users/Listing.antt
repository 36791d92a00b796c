-- ===== src/Repository/Users/Listing.antt =====
-- `List` of internal/repository/implementation/user.go.
pub mod Laws
use Prim.Native.String.{◌++◌ as text_append}
use go_with_me.Base.{
  ℕ, ◌^◌, String, Bool, true, false, ◌&&◌, ◌||◌, not, Option, none, some, List, [], ◌∷◌, ltb, leb,
  ◌=ₛ◌, if◌then◌else◌, count, keep, take, drop, length,
}
use go_with_me.ApiError.{Error, plain, wrapped}
use go_with_me.Models.{User, UserRole}
use go_with_me.World.{World, Env, count_users, list_users}
use go_with_me.Action.{Action, pure, raise, gets, wrap, query, raise_if, ◌>>=◌, ◌>>◌}
use go_with_me.Pagination.{Params, offset}
use go_with_me.Repository.Sql.{enum_error}
use go_with_me.Repository.Users.{role_fits}
use go_with_me.Repository.Newest.{newest_first}

pub record ListUsersParams : Type 0 where
  pub role : Option UserRole
  pub search : Option String
  pub params : Params

-- PostgreSQL's ILIKE: a text and a pattern.
abbrev pub Ilike : Type 0
Ilike = String → String → Bool

abbrev pub of_role : Option UserRole → User → Bool
of_role none u = true
of_role (some role) u = u.role =ₛ role

abbrev pub matching : Ilike → String → User → Bool
matching ilike pattern u = ilike u.name pattern || ilike u.email pattern

-- An empty search is no condition.
abbrev pub found_by : Ilike → Option String → User → Bool
found_by ilike none u = true
found_by ilike (some search) u =
    search =ₛ "" || matching ilike (text_append "%" (text_append search "%")) u

-- The WHERE clause.
abbrev pub is_listed : Ilike → ListUsersParams → User → Bool
is_listed ilike p u = of_role p.role u && found_by ilike p.search u

-- All rows that a listing is about, in its order.
abbrev pub listed : Ilike → ListUsersParams → World → List User
listed ilike p w = newest_first (λ u. u.created_at) (keep (is_listed ilike p) w.users)

module _ (env : Env) (ilike : Ilike) where
  -- `LIMIT … OFFSET …`: a negative offset is an error of the database.
  -- The query parameter `role` is not validated: a text that is no role is an error of the database.
  unfoldable pub list_rows : ListUsersParams → Action (List User)
  list_rows p = query env list_users do
    raise_if (not (role_fits p.role)) enum_error
    raise_if (leb (2 ^ 63) (offset p.params)) (plain "OFFSET must not be negative")
    gets (λ w. take p.params.page_size (drop (offset p.params) (listed ilike p w)))

  unfoldable pub list : ListUsersParams → Action (List User × ℕ)
  unfolding list_rows
  list p = do
    total ← wrap "count users" (
        query env count_users do
          raise_if (not (role_fits p.role)) enum_error
          gets (λ w. count (is_listed ilike p) w.users))
    users ← wrap "list users" (list_rows p)
    pure (users, total)
