-- ===== src/Bootstrap/Start/Worlds.antt =====
-- The world after each call of a start.
use go_with_me.Logger.{zap_config}
use go_with_me.Base.{ℕ, suc, String, List, [], ◌∷◌, ◌++◌, ◌≡◌, refl, ap, ◌∙◌, inl, inr, Bool-cases}
use go_with_me.Config.{Config}
use go_with_me.Config.Load.{read_dsns}
use go_with_me.World.{World, Env}
use go_with_me.Action.{Result, ok, err}
use go_with_me.Services.Auth.Bootstrap.{ensure_bootstrap_admin}
use go_with_me.Bootstrap.Process.{
  Process, StartError, write_database, connect_database, run_migrations, connect_redis, Outcome,
  started, failed, give, abort, handled, close, open_handle, ◌>>=◌, ◌>>◌,
}
use go_with_me.Bootstrap.Process.Handles.{Ends, Ends-after, Ends-step}
use go_with_me.Bootstrap.Database.{
  Drivers, Db, close_db, connect_pool, give_up, connect_readers, connect, run_pending,
}
use go_with_me.Bootstrap.Database.Connects.{close_db_lem, give_up_lem}
use go_with_me.Bootstrap.Start.{
  connect_redis_client, done_on_world, on_world, wire, redis_and_admin, new_with,
}

-- A call that fails says nothing of the world, and one that succeeds leads to this world.
abbrev pub Failed : StartError → Process → Type 0
Failed e q = Unit {0}

abbrev pub LeadsTo : {A : Type 0} → World → A → Process → Type 0
LeadsTo w a q = q.world ≡ w

moved :
    {A : Type 0} {v w : World} (r : Outcome A × Process)
    → v ≡ w
    → Ends Failed (LeadsTo v) r
    → Ends Failed (LeadsTo w) r
moved (started a, q) same h = h ∙ same
moved (failed e, q) same h = tt

module _ (d : Drivers) where
  connect_pool-world :
      (dsn : String) (q : Process) → Ends Failed (LeadsTo q.world) (connect_pool d dsn q)
  unfolding connect_pool
  connect_pool-world dsn q = elim (Bool-cases (d.makes_pool dsn q)) [
    | inr no_pool ↦ rw no_pool tt
    | inl pool ↦ elim (Bool-cases (d.pool_answers q.next (open_handle q).1)) [
      | inl up ↦ rw (pool, up) refl
      | inr down ↦ rw (pool, down) tt
    ]
  ]

  connect_readers-world :
      (w : ℕ) (rs : List ℕ) (i : ℕ) (urls : List String) (q : Process)
      → Ends Failed (LeadsTo q.world) (connect_readers d w rs i urls q)
  unfolding connect_readers
  connect_readers-world w rs i [] q = refl
  connect_readers-world w rs i (url ∷ urls) q =
      Ends-after Failed (LeadsTo q.world) Failed (LeadsTo q.world) (give_up w rs i)
        (λ r. connect_readers d w (rs ++ r ∷ []) (suc i) urls) (connect_pool d url q)
        (connect_pool-world url q) (λ e q' u. rw (give_up_lem w rs i e q') tt)
        (λ r q' same.
          moved (connect_readers d w (rs ++ r ∷ []) (suc i) urls q') same
            (connect_readers-world w (rs ++ r ∷ []) (suc i) urls q'))

  connect-world :
      (write_url : String) (read_urls : List String) (q : Process)
      → Ends Failed (LeadsTo q.world) (connect d write_url read_urls q)
  unfolding connect
  connect-world write_url read_urls q =
      Ends-step Failed (LeadsTo q.world) Failed (LeadsTo q.world) (λ e. abort (write_database e))
        (λ w. do
          rs ← connect_readers d w [] 0 read_urls
          give (record { write = w; read = rs; rr = 0 }))
        (connect_pool d write_url q) (connect_pool-world write_url q) (λ e q' u. tt)
        (λ w q' same.
          Ends-after Failed (LeadsTo q'.world) Failed (LeadsTo q.world) abort
            (λ rs. give (record { write = w; read = rs; rr = 0 }))
            (connect_readers d w [] 0 read_urls q') (connect_readers-world w [] 0 read_urls q')
            (λ e q'' u. tt) (λ rs q'' still. still ∙ same))

  run_pending-world :
      (dsn : String) (q : Process) → Ends Failed (LeadsTo (d.up q.world).1) (run_pending d dsn q)
  unfolding run_pending
  run_pending-world dsn q = elim (Bool-cases (d.opens_migrations dsn q)) [
    | inr none_open ↦ rw none_open tt
    | inl open_one ↦ elim (Bool-cases (d.up q.world).0) [
      | inl fine ↦ rw (open_one, fine) refl
      | inr not_fine ↦ rw (open_one, not_fine) tt
    ]
  ]

  connect_redis_client-world :
      (url : String) (q : Process) → Ends Failed (LeadsTo q.world) (connect_redis_client d url q)
  unfolding connect_redis_client
  connect_redis_client-world url q = elim (Bool-cases (d.parses_redis_url url q)) [
    | inr bad_url ↦ rw bad_url tt
    | inl good ↦ elim (Bool-cases (d.redis_answers q.next (open_handle q).1)) [
      | inl up ↦ rw (good, up) refl
      | inr down ↦ rw (good, down) tt
    ]
  ]

done_on_world-world :
    (q : Process) (r : Result (Unit {0}) × World) → Ends Failed (LeadsTo r.1) (done_on_world q r)
done_on_world-world q (ok u, w) = refl
done_on_world-world q (err e, w) = tt

module _ (d : Drivers) (env : Env) (cfg : Config) where
  -- After the migrations only the first admin is added.
  abbrev pub after_admin : World → World
  after_admin w = (ensure_bootstrap_admin env cfg w).1

  admin-world :
      (db : Db) (c : ℕ) (q : Process)
      → Ends Failed (LeadsTo (after_admin q.world)) (
          (do
            handled
                (λ e. do close_db db; close c; abort e)
                give
                (on_world (ensure_bootstrap_admin env cfg))
            give (wire env cfg db c))
            q)
  admin-world db c q =
      Ends-step Failed (LeadsTo (after_admin q.world)) Failed (LeadsTo (after_admin q.world))
        (λ e. do close_db db; close c; abort e) (λ _. give (wire env cfg db c))
        (on_world (ensure_bootstrap_admin env cfg) q)
        (done_on_world-world q (ensure_bootstrap_admin env cfg q.world))
        (λ e q' u. rw (close_db_lem db q') tt) (λ u q' same. same)

  redis_and_admin-world :
      (db : Db) (q : Process)
      → Ends Failed (LeadsTo (after_admin q.world)) (redis_and_admin d env cfg db q)
  redis_and_admin-world db q =
      Ends-step Failed (LeadsTo q.world) Failed (LeadsTo (after_admin q.world))
        (λ e. do close_db db; abort (connect_redis e))
        (λ c. do
          handled (λ e. do close_db db; close c; abort e) give
              (on_world (ensure_bootstrap_admin env cfg))
          give (wire env cfg db c))
        (connect_redis_client d cfg.redis_url q) (connect_redis_client-world d cfg.redis_url q)
        (λ e q' u. rw (close_db_lem db q') tt)
        (λ c q' same.
          moved
            ((do
              handled (λ e. do close_db db; close c; abort e) give
                  (on_world (ensure_bootstrap_admin env cfg))
              give (wire env cfg db c))
              q')
            (ap after_admin same) (admin-world db c q'))

  -- The world of a program that has started.
  pub new_with-world :
      (p : Process) → Ends Failed (LeadsTo (after_admin (d.up p.world).1)) (new_with d env cfg p)
  unfolding new_with
  new_with-world p = elim (Bool-cases (d.builds_logger (zap_config cfg.app_env) p)) [
    | inr no_logger ↦ rw no_logger tt
    | inl logger ↦
        let w = after_admin (d.up p.world).1 in
        rw logger (
          Ends-step Failed (LeadsTo p.world) Failed (LeadsTo w) (λ e. abort (connect_database e))
            (λ db. do
              handled (λ e. do close_db db; abort (run_migrations e)) give
                  (run_pending d cfg.database_write_url)
              redis_and_admin d env cfg db)
            (connect d cfg.database_write_url (read_dsns cfg) p)
            (connect-world d cfg.database_write_url (read_dsns cfg) p) (λ e q u. tt)
            (λ db q same.
              Ends-step Failed (LeadsTo (d.up p.world).1) Failed (LeadsTo w)
                (λ e. do close_db db; abort (run_migrations e)) (λ _. redis_and_admin d env cfg db)
                (run_pending d cfg.database_write_url q)
                (moved (run_pending d cfg.database_write_url q) (ap (λ v. (d.up v).1) same)
                  (run_pending-world d cfg.database_write_url q))
                (λ e q' u. rw (close_db_lem db q') tt)
                (λ u q' migrated.
                  moved (redis_and_admin d env cfg db q') (ap after_admin migrated)
                    (redis_and_admin-world db q'))))
  ]
