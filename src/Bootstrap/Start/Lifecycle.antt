-- ===== src/Bootstrap/Start/Lifecycle.antt =====
-- From a start to a shutdown.
use go_with_me.Base.{ℕ, suc, String, ◌∷◌, ◌≡◌, refl, arith, ◌⊎◌, inl, inr, ◌==◌, Bool-cases}
use go_with_me.Config.{Config}
use go_with_me.Config.Load.{ParseUrl, Loaded, loaded, load_failed, load}
use go_with_me.World.{Env}
use go_with_me.Bootstrap.Process.{
  Process, StartError, connect_redis, ping_redis, started, failed, close, ◌>>=◌,
}
use go_with_me.Bootstrap.Process.Handles.{IsFresh, Ends, Holds-nothing, Holds-none}
use go_with_me.Bootstrap.Database.{Drivers}
use go_with_me.Bootstrap.Database.Connects.{pools, close_db_lem}
use go_with_me.Bootstrap.Start.{
  App, loaded_or_abort, new_with, new_app, close_connections, stop_server, shutdown,
}
use go_with_me.Bootstrap.Start.Handles.{Lost, Kept, new_with-Ends}

lost_lem :
    {p q : Process} {e : StartError}
    → Lost p e q
    → (x : ℕ) → (q.is_open x ≡ p.is_open x) ⊎ ((e ≡ connect_redis ping_redis) × (suc x ≡ q.next))
lost_lem (inl h) x = inl (h.opened x)
lost_lem (inr (c, same, h, last)) x = elim (Bool-cases (x == c)) [
  | inl that ↦ inr (same, ground arith)
  | inr other ↦ inl (ground (arith, h.opened x))
]

module _ (p : Process) (fresh : IsFresh p) where
  closed_lem :
      (app : App) (q : Process)
      → Kept p app q
      → (x : ℕ) → (close_connections app q).1.is_open x ≡ p.is_open x
  closed_lem app q (db, c, has_db, has_redis, no_job, h) x =
      let back = Holds-none p fresh (c ∷ pools db) q h in
      rw (has_db, has_redis, close_db_lem db (close c q).1) (back.opened x)

module _ (d : Drivers) (env : Env) (p : Process) (fresh : IsFresh p) where
  loaded-Ends :
      (l : Loaded) → Ends (Lost p) (Kept p) ((do cfg ← loaded_or_abort l; new_with d env cfg) p)
  loaded-Ends (loaded cfg) = new_with-Ends d env p fresh cfg
  loaded-Ends (load_failed e) = inl (Holds-nothing p)

  pub new_app-Ends :
      (parse_url : ParseUrl) (parsed : Config ⊎ String)
      → Ends (Lost p) (Kept p) (new_app d env parse_url parsed p)
  unfolding new_app
  new_app-Ends parse_url parsed = loaded-Ends (load parse_url parsed)

  -- A start from a process whose unmade handles are closed, where it fails: every handle is as it was
  -- before, but for one case. Where Redis does not answer its ping, the client, which is the handle
  -- made last, may stay open.
  pub failed_start_closes :
      (parse_url : ParseUrl) (parsed : Config ⊎ String) {e : StartError} {q : Process}
      → new_app d env parse_url parsed p ≡ (failed e, q)
      → (x : ℕ) → (q.is_open x ≡ p.is_open x) ⊎ ((e ≡ connect_redis ping_redis) × (suc x ≡ q.next))
  failed_start_closes parse_url parsed {e} {q} run x =
      let lost : Lost p e q = rw run at (new_app-Ends parse_url parsed) in lost_lem lost x

  -- A start from a process whose unmade handles are closed, where it succeeds, and then `Shutdown`:
  -- the server's error is returned, and whatever that is, every handle is as it was before the start.
  pub shutdown-new_app :
      (parse_url : ParseUrl) (parsed : Config ⊎ String) {app : App} {q : Process}
      → new_app d env parse_url parsed p ≡ (started app, q)
      → let stopped = shutdown d app q in
        (stopped.0 ≡ stop_server d app.server q) × ((x : ℕ) → stopped.1.is_open x ≡ p.is_open x)
  unfolding shutdown
  shutdown-new_app parse_url parsed {app} {q} run =
      let kept : Kept p app q = rw run at (new_app-Ends parse_url parsed) in
      (refl, closed_lem p fresh app q kept)
