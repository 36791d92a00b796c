-- ===== src/Repository/Audit.antt =====
-- `List` of internal/repository/implementation/audit.go; `Create` is in Http.Audit.
pub mod Laws
pub mod Rows
pub mod Sql
use go_with_me.Base.{
  ℕ, ◌^◌, String, Bool, true, false, ◌&&◌, ◌||◌, Option, none, some, List, leb, ◌==◌, ◌=ₛ◌, count,
  keep, take, drop,
}
use go_with_me.ApiError.{plain}
use go_with_me.Models.{AuditLog}
use go_with_me.World.{World, Env, count_audit, list_audit}
use go_with_me.Action.{Action, pure, gets, wrap, query, raise_if, ◌>>=◌, ◌>>◌}
use go_with_me.Pagination.{Params, offset}
use go_with_me.Repository.Newest.{newest_first}

pub record ListAuditParams : Type 0 where
  pub user_id : Option ℕ
  pub resource : Option String
  pub params : Params

-- `user_id = $1`, which NULL is not.
abbrev pub has_user : ℕ → Option ℕ → Bool
has_user id none = false
has_user id (some user_id) = user_id == id

abbrev pub of_user : Option ℕ → AuditLog → Bool
of_user none log = true
of_user (some id) log = has_user id log.user_id

-- An empty resource is no condition.
abbrev pub of_resource : Option String → AuditLog → Bool
of_resource none log = true
of_resource (some resource) log = resource =ₛ "" || log.resource =ₛ resource

-- The WHERE clause.
abbrev pub is_listed : ListAuditParams → AuditLog → Bool
is_listed p log = of_user p.user_id log && of_resource p.resource log

-- All rows that a listing is about, in its order.
abbrev pub listed : ListAuditParams → World → List AuditLog
listed p w = newest_first (λ log. log.created_at) (keep (is_listed p) w.audit)

module _ (env : Env) where
  unfoldable pub list_rows : ListAuditParams → Action (List AuditLog)
  list_rows p = query env list_audit do
    raise_if (leb (2 ^ 63) (offset p.params)) (plain "OFFSET must not be negative")
    gets (λ w. take p.params.page_size (drop (offset p.params) (listed p w)))

  unfoldable pub list : ListAuditParams → Action (List AuditLog × ℕ)
  unfolding list_rows
  list p = do
    total ←
        wrap "count audit logs" (query env count_audit do gets (λ w. count (is_listed p) w.audit))
    logs ← wrap "list audit logs" (list_rows p)
    pure (logs, total)
