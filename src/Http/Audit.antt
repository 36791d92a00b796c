-- ===== src/Http/Audit.antt =====
-- internal/api/middleware/audit.go, and `Create` of internal/repository/implementation/audit.go.
use go_with_me.Base.{
  ℕ, String, Bool, ◌||◌, not, Option, none, some, ◌∷◌, ◌=ₛ◌, ◌==◌, leb, if◌then◌else◌,
}
use go_with_me.Models.{AuditLog}
use go_with_me.World.{World, Env, create_audit}
use go_with_me.Action.{Action, gets, modify, query, wrap, ◌>>=◌}
use go_with_me.Http.{HttpRequest, Identity, Handler, Response, status}

-- `CreateAuditParams`.
pub record CreateAuditParams : Type 0 where
  pub user_id : Option ℕ
  pub action : String
  pub resource : String
  pub resource_id : Option String
  pub ip_address : String
  pub user_agent : String
  pub metadata : String

abbrev pub new_audit_log : CreateAuditParams → ℕ → ℕ → AuditLog
new_audit_log p id now = record {
  id = id;
  user_id = p.user_id;
  action = p.action;
  resource = p.resource;
  resource_id = p.resource_id;
  ip_address = p.ip_address;
  user_agent = p.user_agent;
  metadata = p.metadata;
  created_at = now;
}

unfoldable pub is_write_method : String → Bool
is_write_method method =
    method =ₛ "POST" || method =ₛ "PUT" || method =ₛ "PATCH" || method =ₛ "DELETE"

abbrev pub id_or_none : String → Option String
id_or_none id = if id =ₛ "" then none else some id

-- The nil UUID is 0.
abbrev pub user_or_none : ℕ → Option ℕ
user_or_none id = if id == 0 then none else some id

module _ (env : Env) (encode : HttpRequest → ℕ → String) where
  unfoldable pub create : CreateAuditParams → Action (Unit {0})
  create params = wrap "create audit log" (
      query env create_audit do
        id ← gets env.new_id
        now ← gets (λ w. w.now)
        modify (λ w. record w { audit = new_audit_log params id now ∷ w.audit }))

  abbrev pub audit_params : String → String → HttpRequest → Identity → ℕ → CreateAuditParams
  audit_params action resource r i code = record {
    user_id = user_or_none i.user_id;
    action = action;
    resource = resource;
    resource_id = id_or_none (r.param "id");
    ip_address = r.client_ip;
    user_agent = r.user_agent;
    metadata = encode r code;
  }

  -- After the handler; a row that cannot be written leaves the response as it is.
  abbrev pub audit_after :
      String → String → HttpRequest → Identity → Response × World → Response × World
  audit_after action resource r i (answer, w) =
      if not (is_write_method r.method) || leb 500 (status answer)
      then (answer, w)
      else (answer, (create (audit_params action resource r i (status answer)) w).1)

  unfoldable pub audit : String → String → Handler → Handler
  unfolding create
  audit action resource next r i w = audit_after action resource r i (next r i w)
