-- ===== src/Repository/Audit/Sql.antt =====
-- The statements of `List` of internal/repository/implementation/audit.go, as they are put together and
-- as PostgreSQL runs them.
pub mod Built
use go_with_me.Base.{
  ℕ, String, Bool, true, false, ◌&&◌, Option, none, some, List, [], ◌∷◌, ◌≡◌, refl, ◌=ₛ◌,
  if◌then◌else◌, map, arith, Bool-cases, inl, inr,
}
use go_with_me.Models.{AuditLog}
use go_with_me.World.{World, Env, count_audit, list_audit}
use go_with_me.Action.{Action}
use go_with_me.Pagination.{Params}
use go_with_me.Repository.Sql.{
  Value, null, uuid, time, text, json, text_or_null, uuid_or_null, nullable, text_or_null-nullable,
  uuid_or_null-nullable, Building, nothing_built, with_clause, arg,
}
use go_with_me.Repository.Sql.Paging.{Listable, run_built, Fits, run_built-promised}
use go_with_me.Repository.Audit
use go_with_me.Repository.Audit.{ListAuditParams, has_user, is_listed}
use go_with_me.Repository.Audit.Rows.{row, scan_audit_log, scan_audit_log-row}

-- `user_id = $k`, and `resource = $k`.
pub data Condition : Type 0 where
  user_is resource_is : ℕ → Condition

abbrev pub add_user : Option ℕ → Building Condition → Building Condition
add_user none b = b
add_user (some user) b = with_clause user_is (uuid user) b

abbrev pub add_resource : Option String → Building Condition → Building Condition
add_resource none b = b
add_resource (some resource) b =
    if resource =ₛ "" then b else with_clause resource_is (text resource) b

unfoldable pub list_query : ListAuditParams → Building Condition
list_query p = add_resource p.resource (add_user p.user_id nothing_built)

abbrev pub condition_arg : Condition → ℕ
condition_arg (user_is k) = k
condition_arg (resource_is k) = k

abbrev pub holds_by : Value → Condition → AuditLog → Bool
holds_by (uuid user) (user_is k) l = has_user user l.user_id
holds_by (text resource) (resource_is k) l = l.resource =ₛ resource
holds_by _ c l = false

abbrev pub audit_table : Listable AuditLog Condition
audit_table = record {
  rows = λ w. w.audit;
  created_at = λ l. l.created_at;
  is_typed = λ args c. true;
  holds = λ args l c. holds_by (arg args (condition_arg c)) c l;
  row = row;
  scan = scan_audit_log;
  scan-row = scan_audit_log-row;
  counts = count_audit;
  lists = list_audit;
  count_failed = "count audit logs";
  list_failed = "list audit logs";
  scan_failed = "scan audit log row";
}

unfoldable pub list : Env → ListAuditParams → Action (List AuditLog × ℕ)
unfolding list_query
list env p = run_built env audit_table p.params (list_query p)
