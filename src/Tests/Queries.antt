-- ===== src/Tests/Queries.antt =====
-- Statements over the small world.
use go_with_me.Base.{List, [], ◌∷◌, ◌≡◌, refl, some, true}
use go_with_me.World.{IsUp}
use go_with_me.Repository.Users
use go_with_me.Repository.Users.{UpdateUserParams}
use go_with_me.Repository.Users.Listing
use go_with_me.Repository.Users.Listing.{Ilike, ListUsersParams}
use go_with_me.Repository.Users.Sql
use go_with_me.Repository.Users.Sql.Built.{list_sql}
use go_with_me.Repository.Users.Sql.Update
use go_with_me.Repository.Users.Sql.Update.{update_sql}
use go_with_me.Repository.Users.Store.{
  Write, deactivates, counts_failure, sets_password, run_writes, put_writes, store_of,
  run_writes-put_writes,
}
use go_with_me.Tests.{town, libraries}

up : IsUp libraries
up s w = refl

abbrev everyone : Ilike
everyone s pattern = true

abbrev admins : ListUsersParams
admins = record {
  role = some "super_admin";
  search = some "a";
  params = record { page = 1; page_size = 2 };
}

list_sql_example :
    Sql.list libraries everyone admins town ≡ Listing.list libraries everyone admins town
list_sql_example = list_sql libraries everyone admins town

abbrev as_viewer : UpdateUserParams
as_viewer = record { name = some " Bob "; role = some "viewer" }

update_sql_example :
    Update.update libraries 2 as_viewer town ≡ Users.update libraries 2 as_viewer town
update_sql_example = update_sql libraries 2 as_viewer town

-- The last is on an id that is not there.
abbrev writes : List Write
writes = deactivates 2 ∷ counts_failure 1 ∷ sets_password 9 "#x" ∷ []

run_writes-put_writes_example :
    ((run_writes libraries writes town).0 ≡ (put_writes writes 1000 (store_of town)).0)
    × (store_of (run_writes libraries writes town).1 ≡ (put_writes writes 1000 (store_of town)).1)
run_writes-put_writes_example = run_writes-put_writes libraries up writes town
