-- ===== src/Bootstrap/Database/Connects.antt =====
-- Which handles connecting to the databases and migrating leave open.
use go_with_me.Base.{
  ℕ, suc, String, Bool, List, [], ◌∷◌, ◌++◌, ◌≡◌, refl, ap, arith, Bool-cases, inl, inr,
}
use go_with_me.Bootstrap.Process.{
  Process, StartError, started, failed, give, abort, read_database, write_database, open_handle,
  close_all, ◌>>=◌,
}
use go_with_me.Bootstrap.Process.Handles.{
  IsFresh, Holds, nothing, plus, among, Ends, Ends-after, Ends-step, Holds-nothing, Holds-open,
  Holds-same, Holds-moved, Holds-closed, Holds-none, close_all-started, close_last,
}
use go_with_me.Bootstrap.Database.{
  Drivers, Db, close_db, connect_pool, give_up, connect_readers, connect, run_pending,
}

-- The pools of a database, in the order in which they are closed.
abbrev pub pools : Db → List ℕ
pools db = db.read ++ db.write ∷ []

pub close_db_lem :
    (db : Db) (q : Process) → close_db db q ≡ (started tt, (close_all (pools db) q).1)
unfolding close_db
close_db_lem db q =
    rw (close_all-started db.read q) (ap (λ q'. (started tt, q')) (close_last db.read db.write q))

pub give_up_lem :
    (w : ℕ) (rs : List ℕ) (i : ℕ) (e : StartError) (q : Process)
    → give_up w rs i e q ≡ (failed (read_database (suc i) e), (close_all (rs ++ w ∷ []) q).1)
give_up_lem w rs i e q =
    rw (close_all-started rs q)
      (ap (λ q'. (failed (read_database (suc i) e), q')) (close_last rs w q))

module _ (d : Drivers) (p : Process) (fresh : IsFresh p) where
  abbrev Back : (ℕ → Bool) → StartError → Process → Type 0
  Back held e q = Holds held p q

  connect_pool-Ends :
      (dsn : String) (held : ℕ → Bool) (q : Process)
      → Holds held p q
      → Ends (Back held) (λ h q'. Holds (plus h held) p q') (connect_pool d dsn q)
  unfolding connect_pool
  connect_pool-Ends dsn held q h = elim (Bool-cases (d.makes_pool dsn q)) [
    | inr no_pool ↦ rw no_pool h
    | inl pool ↦ elim (Bool-cases (d.pool_answers q.next (open_handle q).1)) [
      | inl up ↦ rw (pool, up) (Holds-open h)
      | inr down ↦ rw (pool, down) (Holds-closed p fresh held q h)
    ]
  ]

  -- The pools of a database that is being connected.
  abbrev pools_of : ℕ → List ℕ → ℕ → Bool
  pools_of w rs = among (rs ++ w ∷ [])

  among-append : (rs : List ℕ) (w r x : ℕ) → plus r (pools_of w rs) x ≡ pools_of w (rs ++ r ∷ []) x
  among-append [] w r x = ground arith
  among-append (h ∷ rs) w r x = ground (arith, among-append rs w r x)

  connect_readers-Ends :
      (w : ℕ) (rs : List ℕ) (i : ℕ) (urls : List String) (q : Process)
      → Holds (pools_of w rs) p q
      → Ends
          (Back nothing)
          (λ rs' q'. Holds (pools_of w rs') p q')
          (connect_readers d w rs i urls q)
  unfolding connect_readers
  connect_readers-Ends w rs i [] q h = h
  connect_readers-Ends w rs i (url ∷ urls) q h =
      Ends-after (Back (pools_of w rs)) (λ r q'. Holds (plus r (pools_of w rs)) p q') (Back nothing)
        (λ rs' q'. Holds (pools_of w rs') p q') (give_up w rs i)
        (λ r. connect_readers d w (rs ++ r ∷ []) (suc i) urls) (connect_pool d url q)
        (connect_pool-Ends url (pools_of w rs) q h)
        (λ e q' held. rw (give_up_lem w rs i e q') (Holds-none p fresh (rs ++ w ∷ []) q' held))
        (λ r q' held.
          connect_readers-Ends w (rs ++ r ∷ []) (suc i) urls q'
            (Holds-same held (pools_of w (rs ++ r ∷ [])) (among-append rs w r)))

  -- A connected database holds its pools; where connecting fails, no pool stays open.
  pub connect-Ends :
      (write_url : String) (read_urls : List String)
      → Ends (Back nothing) (λ db q. Holds (among (pools db)) p q) (connect d write_url read_urls p)
  unfolding connect
  connect-Ends write_url read_urls =
      Ends-step (Back nothing) (λ w q. Holds (plus w nothing) p q) (Back nothing)
        (λ db q. Holds (among (pools db)) p q) (λ e. abort (write_database e))
        (λ w. do
          rs ← connect_readers d w [] 0 read_urls
          give (record { write = w; read = rs; rr = 0 }))
        (connect_pool d write_url p) (connect_pool-Ends write_url nothing p (Holds-nothing p))
        (λ e q h. h)
        (λ w q h.
          Ends-after (Back nothing) (λ rs q'. Holds (pools_of w rs) p q') (Back nothing)
            (λ db q'. Holds (among (pools db)) p q') abort
            (λ rs. give (record { write = w; read = rs; rr = 0 }))
            (connect_readers d w [] 0 read_urls q)
            (connect_readers-Ends w [] 0 read_urls q
              (Holds-same h (pools_of w []) (λ x. ground arith)))
            (λ e q' back. back) (λ rs q' held. held))

  pub run_pending-Ends :
      (dsn : String) (held : ℕ → Bool) (q : Process)
      → Holds held p q
      → Ends (Back held) (λ _ q'. Holds held p q') (run_pending d dsn q)
  unfolding run_pending
  run_pending-Ends dsn held q h = elim (Bool-cases (d.opens_migrations dsn q)) [
    | inr none_open ↦ rw none_open h
    | inl open_one ↦ elim (Bool-cases (d.up q.world).0) [
      | inl fine ↦ rw (open_one, fine) (Holds-moved (Holds-closed p fresh held q h) _ refl refl)
      | inr not_fine ↦
          rw (open_one, not_fine) (Holds-moved (Holds-closed p fresh held q h) _ refl refl)
    ]
  ]
