-- ===== src/Bootstrap/Database.antt =====
-- internal/bootstrap/database.go: the write pool and the replicas.
pub mod RoundRobin
pub mod Connects
use go_with_me.Logger.{ZapConfig}
use go_with_me.Base.{
  ℕ, suc, ◌+◌, ◌-◌, ◌%◌, ◌^◌, String, Bool, Option, some, List, [], ◌∷◌, ◌++◌, length, get_elem?,
}
use go_with_me.ApiError.{Error}
use go_with_me.World.{World}
use go_with_me.Bootstrap.Process.{
  Process, StartError, create_pool, ping_database, write_database, read_database, open_migrations,
  migrate_up, Setup, give, abort, handled, ◌>>=◌, ◌>>◌, require, open_handle, close, close_all,
}

-- pgxpool and goose, and in one record with them the other libraries of a start.
pub record Drivers : Type 0 where
  -- whether `pgxpool.New`, `Ping`, `goose.OpenDBWithDriver`, `redis.ParseURL` and `Ping` succeed
  pub makes_pool : String → Process → Bool
  pub pool_answers : ℕ → Process → Bool
  pub opens_migrations : String → Process → Bool
  pub parses_redis_url : String → Process → Bool
  pub redis_answers : ℕ → Process → Bool
  -- `goose.Up`: whether it succeeds, and the world after it
  pub up : World → Bool × World
  -- whether zap builds this logger, and what `server.Shutdown` returns
  pub builds_logger : ZapConfig → Process → Bool
  pub stops_server : Process → Option Error

-- The round robin's counter is an unsigned 64-bit number.
pub record Db : Type 0 where
  pub write : ℕ
  pub read : List ℕ
  pub rr : ℕ

abbrev pick : Db → List ℕ → Option ℕ × Db
pick db [] = (some db.write, db)
pick db (r ∷ rs) =
    let idx = (db.rr + 1) % 2 ^ 64 in
    (get_elem? (r ∷ rs) ((idx + 2 ^ 64 - 1) % 2 ^ 64 % length (r ∷ rs)), record db { rr = idx })

-- `Read`; none stands for an index out of range.
unfoldable pub read_pool : Db → Option ℕ × Db
read_pool db = pick db db.read

unfoldable pub close_db : Db → Setup (Unit {0})
close_db db = do close_all db.read; close db.write

abbrev pub give_up : ℕ → List ℕ → ℕ → StartError → Setup (List ℕ)
give_up writer readers i e = do close_all readers; close writer; abort (read_database (suc i) e)

module _ (d : Drivers) where
  unfoldable pub connect_pool : String → Setup ℕ
  connect_pool dsn = do
    require (d.makes_pool dsn) create_pool
    pool ← open_handle
    handled (λ e. do close pool; abort e) (λ _. give pool)
        (require (d.pool_answers pool) ping_database)

  -- The loop over the replicas, with those that are connected.
  unfoldable pub connect_readers : ℕ → List ℕ → ℕ → List String → Setup (List ℕ)
  connect_readers writer readers i [] = give readers
  connect_readers writer readers i (url ∷ urls) =
      handled (give_up writer readers i)
        (λ reader. connect_readers writer (readers ++ reader ∷ []) (suc i) urls) (connect_pool url)

  unfoldable pub connect : String → List String → Setup Db
  connect write_url read_urls = do
    writer ← handled (λ e. abort (write_database e)) give (connect_pool write_url)
    readers ← connect_readers writer [] 0 read_urls
    give (record { write = writer; read = readers; rr = 0 })

  -- `goose.Up`, before the deferred `Close`.
  abbrev pub migrated : Setup (Unit {0})
  migrated p =
      let (fine, world) = d.up p.world in
      require (λ _. fine) migrate_up (record p { world = world })

  unfoldable pub run_pending : String → Setup (Unit {0})
  run_pending dsn = do
    require (d.opens_migrations dsn) open_migrations
    db ← open_handle
    handled (λ e. do close db; abort e) (λ _. close db) migrated
