-- ===== src/Repository/Users/Sql/Built.antt =====
-- The statements that `List` of internal/repository/implementation/user.go puts together do what the
-- repository promises.
use Prim.Native.String.{◌++◌ as text_append}
use go_with_me.Base.{
  String, Bool, true, false, ◌&&◌, Option, none, some, ◌≡◌, refl, arith, Bool-cases, inl, inr, ◌=ₛ◌,
}
use go_with_me.World.{World, Env}
use go_with_me.Pagination.{Params}
use go_with_me.Repository.Sql.{Building, nothing_built, with_clause, text}
use go_with_me.Repository.Sql.Paging.{Fits, run_built-promised}
use go_with_me.Repository.Users.{role_fits}
use go_with_me.Repository.Users.Listing
use go_with_me.Repository.Users.Listing.{Ilike, ListUsersParams, is_listed}
use go_with_me.Repository.Users.Sql
use go_with_me.Repository.Users.Sql.{
  Condition, name_or_email_like, add_role, list_query, users_table,
}

and_true : (b : Bool) → (b && true) ≡ b
and_true b = ground arith

module _ (env : Env) (ilike : Ilike) (params : Params) where
  abbrev asked : Option String → Option String → ListUsersParams
  asked role search = record { role = role; search = search; params = params }

  abbrev Answers : Option String → Option String → Building Condition → Type 0
  Answers role search =
      Fits env (users_table ilike) (role_fits role) (is_listed ilike (asked role search)) params

  without_search : (role : Option String) → Answers role none (add_role role nothing_built)
  without_search none = record {
    counted = record { typed = refl; same = λ u. refl };
    listed = record { typed = refl; same = λ u. refl };
    limit = refl;
    from = refl;
  }
  without_search (some role) = record {
    counted = record { typed = ground arith; same = λ u. refl };
    listed = record { typed = ground arith; same = λ u. refl };
    limit = refl;
    from = refl;
  }

  blank_search :
      (role : Option String) (search : String)
      → (search =ₛ "") ≡ true
      → Answers role (some search) (add_role role nothing_built)
  blank_search role search blank =
      let plain = without_search role in
      record {
        counted = record {
          typed = plain.counted.typed;
          same = λ u. rw blank (plain.counted.same u);
        };
        listed = record { typed = plain.listed.typed; same = λ u. rw blank (plain.listed.same u) };
        limit = plain.limit;
        from = plain.from;
      }

  with_search :
      (role : Option String) (search : String)
      → (search =ₛ "") ≡ false
      → Answers role (some search) (
          with_clause name_or_email_like
            (text (text_append "%" (text_append search "%")))
            (add_role role nothing_built))
  with_search none search given = record {
    counted = record { typed = refl; same = λ u. rw given (and_true _) };
    listed = record { typed = refl; same = λ u. rw given (and_true _) };
    limit = refl;
    from = refl;
  }
  with_search (some role) search given = record {
    counted = record { typed = ground arith; same = λ u. rw (given, and_true) refl };
    listed = record { typed = ground arith; same = λ u. rw (given, and_true) refl };
    limit = refl;
    from = refl;
  }

  list_query-Fits :
      (role search : Option String) → Answers role search (list_query (asked role search))
  unfolding list_query
  list_query-Fits role none = without_search role
  list_query-Fits role (some search) = elim (Bool-cases (search =ₛ "")) [
    | inl blank ↦ rw blank (blank_search role search blank)
    | inr given ↦ rw given (with_search role search given)
  ]

-- The statements that `List` puts together, with their numbered placeholders and the scan of each row,
-- list the users that match the role and the search: what they answer and write is, whatever the
-- database does, what the listing of the repository does.
pub list_sql :
    (env : Env) (ilike : Ilike) (p : ListUsersParams) (w : World)
    → Sql.list env ilike p w ≡ Listing.list env ilike p w
unfolding Sql.list Listing.list
list_sql env ilike p w =
    run_built-promised env (users_table ilike) (role_fits p.role) (is_listed ilike p) p.params
      (list_query p) w (list_query-Fits env ilike p.params p.role p.search)
