-- ===== src/Repository/Audit/Sql/Built.antt =====
-- The statements that `List` of internal/repository/implementation/audit.go puts together do what the
-- repository promises.
use go_with_me.Base.{
  ℕ, String, true, false, Option, none, some, ◌≡◌, refl, ◌=ₛ◌, arith, Bool-cases, inl, inr,
}
use go_with_me.World.{World, Env}
use go_with_me.Pagination.{Params}
use go_with_me.Repository.Sql.{text, Building, nothing_built, with_clause}
use go_with_me.Repository.Sql.Paging.{Fits, run_built-promised}
use go_with_me.Repository.Audit
use go_with_me.Repository.Audit.{ListAuditParams, has_user, is_listed}
use go_with_me.Repository.Audit.Sql
use go_with_me.Repository.Audit.Sql.{
  Condition, user_is, resource_is, add_user, add_resource, list_query, audit_table,
}

module _ (env : Env) (params : Params) where
  abbrev asked : Option ℕ → Option String → ListAuditParams
  asked user resource = record { user_id = user; resource = resource; params = params }

  abbrev Answers : Option ℕ → Option String → Building Condition → Type 0
  Answers user resource = Fits env audit_table true (is_listed (asked user resource)) params

  without_resource : (user : Option ℕ) → Answers user none (add_user user nothing_built)
  without_resource none = record {
    counted = record { typed = refl; same = λ l. refl };
    listed = record { typed = refl; same = λ l. refl };
    limit = refl;
    from = refl;
  }
  without_resource (some user) = record {
    counted = record { typed = refl; same = λ l. refl };
    listed = record { typed = refl; same = λ l. refl };
    limit = refl;
    from = refl;
  }

  blank_resource :
      (user : Option ℕ) (resource : String)
      → (resource =ₛ "") ≡ true
      → Answers user (some resource) (add_user user nothing_built)
  blank_resource user resource blank =
      let plain = without_resource user in
      record {
        counted = record {
          typed = plain.counted.typed;
          same = λ l. rw blank (plain.counted.same l);
        };
        listed = record { typed = plain.listed.typed; same = λ l. rw blank (plain.listed.same l) };
        limit = plain.limit;
        from = plain.from;
      }

  with_resource :
      (user : Option ℕ) (resource : String)
      → (resource =ₛ "") ≡ false
      → Answers user
          (some resource)
          (with_clause resource_is (text resource) (add_user user nothing_built))
  with_resource none resource given = record {
    counted = record { typed = refl; same = λ l. ground arith };
    listed = record { typed = refl; same = λ l. ground arith };
    limit = refl;
    from = refl;
  }
  with_resource (some user) resource given = record {
    counted = record { typed = refl; same = λ l. ground arith };
    listed = record { typed = refl; same = λ l. ground arith };
    limit = refl;
    from = refl;
  }

  list_query-Fits :
      (user : Option ℕ) (resource : Option String)
      → Answers user resource (list_query (asked user resource))
  unfolding list_query
  list_query-Fits user none = without_resource user
  list_query-Fits user (some resource) = elim (Bool-cases (resource =ₛ "")) [
    | inl blank ↦ rw blank (blank_resource user resource blank)
    | inr given ↦ rw given (with_resource user resource given)
  ]

-- The statements that `List` puts together, with the scan of each row, list the rows of the user and
-- of the resource that are asked for: they answer and write what the listing of the log does.
pub list_audit_sql :
    (env : Env) (p : ListAuditParams) (w : World) → Sql.list env p w ≡ Audit.list env p w
unfolding Sql.list Audit.list
list_audit_sql env p w =
    run_built-promised env audit_table true (is_listed p) p.params (list_query p) w
      (list_query-Fits env p.params p.user_id p.resource)
