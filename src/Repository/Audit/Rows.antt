-- ===== src/Repository/Audit/Rows.antt =====
-- The rows of `audit_logs`, and what `scanAuditLog` makes of them.
use go_with_me.Base.{ℕ, String, Option, none, some, List, [], ◌∷◌, ◌≡◌, refl, map}
use go_with_me.Models.{AuditLog}
use go_with_me.Repository.Sql.{
  Value, uuid, time, text, json, text_or_null, uuid_or_null, nullable, text_or_null-nullable,
  uuid_or_null-nullable,
}

pub data Column : Type 0 where
  id user_id action resource resource_id ip_address user_agent metadata created_at : Column

abbrev pub audit_columns : List Column
audit_columns =
    id ∷ user_id ∷ action ∷ resource ∷ resource_id ∷ ip_address ∷ user_agent ∷ metadata ∷ created_at
    ∷ []

-- What the table holds in a column, by its type in migrations/003_audit_logs.sql.
abbrev pub cell : AuditLog → Column → Value
cell l id = uuid l.id
cell l user_id = nullable uuid l.user_id
cell l action = text l.action
cell l resource = text l.resource
cell l resource_id = nullable text l.resource_id
cell l ip_address = text l.ip_address
cell l user_agent = text l.user_agent
cell l metadata = json l.metadata
cell l created_at = time l.created_at

abbrev pub row : AuditLog → List Value
row l = map (cell l) audit_columns

abbrev with_nullables : AuditLog → Option (Option ℕ) → Option (Option String) → Option AuditLog
with_nullables l (some u) (some s) = some (record l { user_id = u; resource_id = s })
with_nullables l _ _ = none

unfoldable pub scan_audit_log : List Value → Option AuditLog
scan_audit_log (uuid i ∷ u ∷ text a ∷ text r ∷ ri ∷ text ip ∷ text agent ∷ json m ∷ time c ∷ []) =
    with_nullables
      (record {
        id = i;
        user_id = none;
        action = a;
        resource = r;
        resource_id = none;
        ip_address = ip;
        user_agent = agent;
        metadata = m;
        created_at = c;
      })
      (uuid_or_null u) (text_or_null ri)
scan_audit_log _ = none

pub scan_audit_log-row : (l : AuditLog) → scan_audit_log (row l) ≡ some l
unfolding scan_audit_log
scan_audit_log-row l =
    rw (uuid_or_null-nullable l.user_id, text_or_null-nullable l.resource_id) refl
