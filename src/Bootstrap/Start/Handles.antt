-- ===== src/Bootstrap/Start/Handles.antt =====
-- Which handles a start and a shutdown leave open.
use go_with_me.Logger.{zap_config}
use go_with_me.Base.{
  ℕ, suc, String, Bool, some, [], ◌∷◌, ◌++◌, ◌≡◌, refl, ap, sym, ◌∙◌, arith, ◌⊎◌, inl, inr,
  Bool-cases,
}
use go_with_me.Config.{Config}
use go_with_me.Config.Load.{read_dsns}
use go_with_me.World.{World, Env}
use go_with_me.Action.{Result, ok, err}
use go_with_me.Services.Auth.Bootstrap.{ensure_bootstrap_admin}
use go_with_me.Bootstrap.Process.{
  Process, StartError, connect_redis, ping_redis, connect_database, run_migrations, give, abort,
  handled, close, close_all, open_handle, ◌>>◌,
}
use go_with_me.Bootstrap.Process.Handles.{
  IsFresh, Holds, nothing, plus, among, Ends, Ends-step, Holds-nothing, Holds-open, Holds-same,
  Holds-moved, Holds-none, Holds-close_all, next-close_all, among-last, close_last, unmade,
}
use go_with_me.Bootstrap.Database.{Drivers, Db, close_db, connect, run_pending}
use go_with_me.Bootstrap.Database.Connects.{pools, close_db_lem, connect-Ends, run_pending-Ends}
use go_with_me.Bootstrap.Start.{
  App, connect_redis_client, on_world, done_on_world, wire, redis_and_admin, new_with,
}

-- A start that fails leaves nothing open, but for a Redis client that does not answer.
abbrev pub Lost : Process → StartError → Process → Type 0
Lost p e q =
    Holds nothing p q
    ⊎ ((c : ℕ) × (e ≡ connect_redis ping_redis) × Holds (plus c nothing) p q × (suc c ≡ q.next))

-- The program holds the pools of its database and its Redis client, and its worker has no job.
abbrev pub Kept : Process → App → Process → Type 0
Kept p app q =
    (db : Db) × (c : ℕ) × (app.db ≡ some db)
    × (app.redis ≡ some c)
    × (app.jobs.jobs ≡ [])
    × Holds (plus c (among (pools db))) p q

module _ (d : Drivers) (env : Env) (p : Process) (fresh : IsFresh p) where
  abbrev Silent : (ℕ → Bool) → Process → StartError → Process → Type 0
  Silent held q e q' =
      Holds held p q' ⊎ ((e ≡ ping_redis) × Holds (plus q.next held) p q' × (q'.next ≡ suc q.next))

  connect_redis_client-Ends :
      (url : String) (held : ℕ → Bool) (q : Process)
      → Holds held p q
      → Ends (Silent held q) (λ c q'. Holds (plus c held) p q') (connect_redis_client d url q)
  unfolding connect_redis_client
  connect_redis_client-Ends url held q h = elim (Bool-cases (d.parses_redis_url url q)) [
    | inr bad_url ↦ rw bad_url (inl h)
    | inl good ↦ elim (Bool-cases (d.redis_answers q.next (open_handle q).1)) [
      | inl up ↦ rw (good, up) (Holds-open h)
      | inr down ↦ rw (good, down) (inr (refl, Holds-open h, refl))
    ]
  ]

  -- The database is closed where Redis fails.
  close-Lost :
      (db : Db) (q : Process)
      → Holds (among (pools db)) p q
      → (e : StartError) (q' : Process) → Silent (among (pools db)) q e q'
      → Lost p (connect_redis e) (close_all (pools db) q').1
  close-Lost db q h e q' (inl held) = inl (Holds-none p fresh (pools db) q' held)
  close-Lost db q h e q' (inr (same, held, next)) = inr (
    q.next,
    ap connect_redis same,
    Holds-same
        (Holds-close_all (plus q.next (among (pools db))) p q' (pools db) fresh held
          (λ x a. ground arith))
        (plus q.next nothing) (λ x. ground (arith, unmade p fresh (among (pools db)) q h)),
    sym next ∙ sym (next-close_all (pools db) q'),
  )

  done_on_world-Ends :
      (held : ℕ → Bool) (q : Process) (r : Result (Unit {0}) × World)
      → Holds held p q
      → Ends (λ e q'. Holds held p q') (λ _ q'. Holds held p q') (done_on_world q r)
  done_on_world-Ends held q (ok u, w) h = Holds-moved h _ refl refl
  done_on_world-Ends held q (err e, w) h = Holds-moved h _ refl refl

  -- The database and Redis are closed where the first admin cannot be made.
  abbrev Back : (ℕ → Bool) → StartError → Process → Type 0
  Back held e q = Holds held p q

  -- The database and Redis are closed where the first admin cannot be made.
  close-both :
      (db : Db) (c : ℕ) (S : Unit {0} → Process → Type 0) (e : StartError) (q : Process)
      → Holds (plus c (among (pools db))) p q
      → Ends (Lost p) S ((do close_db db; close c; abort e) q)
  close-both db c S e q h =
      let all : Holds (among (pools db ++ c ∷ [])) p q =
        Holds-same h (among (pools db ++ c ∷ [])) (among-last (pools db) c) in
      let back = Holds-none p fresh (pools db ++ c ∷ []) q all in
      rw (close_db_lem db q, close_last (pools db) c q) (inl back)

  admin-Ends :
      (cfg : Config) (db : Db) (c : ℕ) (q : Process)
      → Holds (plus c (among (pools db))) p q
      → Ends (Lost p) (Kept p) (
          (do
            handled
                (λ e. do close_db db; close c; abort e)
                give
                (on_world (ensure_bootstrap_admin env cfg))
            give (wire env cfg db c))
            q)
  admin-Ends cfg db c q h =
      let held = plus c (among (pools db)) in
      Ends-step (Back held) (λ _ q'. Holds held p q') (Lost p) (Kept p)
        (λ e. do close_db db; close c; abort e) (λ _. give (wire env cfg db c))
        (on_world (ensure_bootstrap_admin env cfg) q)
        (done_on_world-Ends held q (ensure_bootstrap_admin env cfg q.world) h)
        (close-both db c (λ _ q'. Holds held p q')) (λ u q' h'. (db, c, refl, refl, refl, h'))

  redis_and_admin-Ends :
      (cfg : Config) (db : Db) (q : Process)
      → Holds (among (pools db)) p q
      → Ends (Lost p) (Kept p) (redis_and_admin d env cfg db q)
  redis_and_admin-Ends cfg db q h =
      let held = among (pools db) in
      Ends-step (Silent held q) (λ c q'. Holds (plus c held) p q') (Lost p) (Kept p)
        (λ e. do close_db db; abort (connect_redis e))
        (λ c. do
          handled (λ e. do close_db db; close c; abort e) give
              (on_world (ensure_bootstrap_admin env cfg))
          give (wire env cfg db c))
        (connect_redis_client d cfg.redis_url q) (connect_redis_client-Ends cfg.redis_url held q h)
        (λ e q' s. rw (close_db_lem db q') (close-Lost db q h e q' s))
        (λ c q' h'. admin-Ends cfg db c q' h')

  pub new_with-Ends : (cfg : Config) → Ends (Lost p) (Kept p) (new_with d env cfg p)
  unfolding new_with
  new_with-Ends cfg = elim (Bool-cases (d.builds_logger (zap_config cfg.app_env) p)) [
    | inr no_logger ↦ rw no_logger (inl (Holds-nothing p))
    | inl logger ↦ rw logger (
        Ends-step (Back nothing) (λ db q. Holds (among (pools db)) p q) (Lost p) (Kept p)
          (λ e. abort (connect_database e))
          (λ db. do
            handled (λ e. do close_db db; abort (run_migrations e)) give
                (run_pending d cfg.database_write_url)
            redis_and_admin d env cfg db)
          (connect d cfg.database_write_url (read_dsns cfg) p)
          (connect-Ends d p fresh cfg.database_write_url (read_dsns cfg)) (λ e q h. inl h)
          (λ db q h.
            let held = among (pools db) in
            Ends-step (Back held) (λ _ q'. Holds held p q') (Lost p) (Kept p)
              (λ e. do close_db db; abort (run_migrations e)) (λ _. redis_and_admin d env cfg db)
              (run_pending d cfg.database_write_url q)
              (run_pending-Ends d p fresh cfg.database_write_url held q h)
              (λ e q' h'. rw (close_db_lem db q') (inl (Holds-none p fresh (pools db) q' h')))
              (λ u q' h'. redis_and_admin-Ends cfg db q' h')))
  ]
