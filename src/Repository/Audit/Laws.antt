-- ===== src/Repository/Audit/Laws.antt =====
-- What a listing of the audit log answers.
use go_with_me.Base.{◌^◌, ◌≤◌, ◌<◌, ◌≡◌, ◌∙◌, arith, count, keep, length, length-take, drop}
use go_with_me.World.{World, Env, IsUp, list_audit, count_audit}
use go_with_me.Action.{ok}
use go_with_me.Pagination.{offset}
use go_with_me.Pagination.Laws.{page_of}
use go_with_me.Repository.Newest.{length-newest_first, length-keep}
use go_with_me.Repository.Audit.{ListAuditParams, is_listed, listed, list}

length-listed :
    (p : ListAuditParams) (w : World) → length (listed p w) ≡ count (is_listed p) w.audit
length-listed p w =
    length-newest_first (λ log. log.created_at) (keep (is_listed p) w.audit)
    ∙ length-keep (is_listed p) w.audit

-- Where the database answers and the offset is not negative, a listing of the audit log is the page
-- that was asked for of the rows of the user and the resource, newest first, with their number as the
-- total; it has no more rows than the page size, and writes nothing.
pub list_audit_lem :
    (env : Env) (p : ListAuditParams) (w : World)
    → IsUp env
    → offset p.params < 2 ^ 63
    → (list env p w ≡ (ok (page_of p.params (listed p w), length (listed p w)), w))
      × (length (page_of p.params (listed p w)) ≤ p.params.page_size)
unfolding list
list_audit_lem env p w up small = (
  ground (arith, up count_audit w, up list_audit w, length-listed p w),
  length-take p.params.page_size (drop (offset p.params) (listed p w)),
)
