-- ===== src/Http/Managed.antt =====
-- The tables under whatever requests reach the server.
use go_with_me.Base.{ℕ, ◌+◌, List, [], ◌∷◌, ◌++◌, ap, refl, Bool, true, ◌≡◌}
use go_with_me.World.{World}
use go_with_me.Models.{User, AuditLog}
use go_with_me.Changes.{
  Write, insert, edit, demote, set_resets, set_notified, add_audit, wait, Changes-keeps,
}
use go_with_me.App.Admins.{IsManaged, Write-IsManaged}
use go_with_me.App.Access.{IsKey, is_inactive_in, Write-inactive}
use go_with_me.Http.{HttpRequest}
use go_with_me.Http.Routes.{Route, Server, handle}
use go_with_me.Http.Refines.{handle-Changes}

-- A request on a route, after a time.
pub record Event : Type 0 where
  pub time : ℕ
  pub route : Route
  pub request : HttpRequest

-- The world after each request in turn.
unfoldable pub serve_all : Server → List Event → World → World
serve_all s [] w = w
serve_all s (e ∷ es) w =
    serve_all s es (handle s e.route e.request (record w { now = w.now + e.time })).1

serve_all-keeps :
    (P : World → Type 0)
    → ((v u : World) → Write v u → P v → P u)
    → (s : Server) (es : List Event) (w : World) → P w
    → P (serve_all s es w)
unfolding serve_all
serve_all-keeps P step s [] w h = h
serve_all-keeps P step s (e ∷ es) w h =
    let later : World = record w { now = w.now + e.time } in
    serve_all-keeps P step s es (handle s e.route e.request later).1 (
      Changes-keeps P step later (handle s e.route e.request later).1
        (handle-Changes s e.route e.request) (step w later (Write.wait w e.time) h))

-- From a valid table of users with an active super admin, whatever requests reach the server, with
-- whatever tokens, one after the other: there stays an active super admin, and the table stays
-- valid.
pub serve_all-IsManaged :
    (s : Server) (es : List Event) (w : World) → IsManaged w → IsManaged (serve_all s es w)
serve_all-IsManaged s es w = serve_all-keeps IsManaged Write-IsManaged s es w

-- A write leaves the audit log as it is, or adds a row.
abbrev IsExtended : List AuditLog → World → Type 0
IsExtended logs w = (more : List AuditLog) × (w.audit ≡ more ++ logs)

Write-IsExtended :
    (logs : List AuditLog) (v u : World) → Write v u → IsExtended logs v → IsExtended logs u
Write-IsExtended logs v u (insert w params id fits) h = h
Write-IsExtended logs v u (edit w id f e) h = h
Write-IsExtended logs v u (demote w id f c spared) h = h
Write-IsExtended logs v u (set_resets w rs) h = h
Write-IsExtended logs v u (set_notified w lines) h = h
Write-IsExtended logs v u (add_audit w log) (more, e) = (log ∷ more, ap (λ t. log ∷ t) e)
Write-IsExtended logs v u (wait w time) h = h

-- The audit log is append-only: after whatever requests reach the server, it is the log from before
-- with rows added in front.
pub serve_all-audit :
    (s : Server) (es : List Event) (w : World)
    → (more : List AuditLog) × ((serve_all s es w).audit ≡ more ++ w.audit)
serve_all-audit s es w =
    serve_all-keeps (IsExtended w.audit) (Write-IsExtended w.audit) s es w ([], refl)

-- A user that is found by a key (the id or the address, `IsKey`) and has no access has none after
-- whatever requests reach the server.
pub serve_all-inactive :
    (key : User → Bool)
    → IsKey key
    → (s : Server) (es : List Event) (w : World) → is_inactive_in key w.users ≡ true
    → is_inactive_in key (serve_all s es w).users ≡ true
serve_all-inactive key k s es w =
    serve_all-keeps (λ w. is_inactive_in key w.users ≡ true) (Write-inactive key k) s es w
