-- ===== src/Bootstrap/Start/CleanUp.antt =====
-- The job that `New` schedules.
use go_with_me.Base.{
  ℕ, zero, suc, ◌≤◌, Bool, true, false, not, List, [], ◌∷◌, ◌≡◌, refl, ap, ◌∙◌, arith, all, ltb,
  All, keep, count, Bool-cases, inl, inr,
}
use go_with_me.Models.{PasswordReset, is_expired}
use go_with_me.World.{World, Env, Statement, IsUp}
use go_with_me.Repository.Resets
use go_with_me.Jobs.Scheduler.{
  Loop, Ticking, launched, Event, elapse, tick, cancel, leave, fire, return_at, step, run,
}
use go_with_me.Bootstrap.Start.{schedule}

abbrev pub is_live : ℕ → PasswordReset → Bool
is_live now r = not (is_expired r now)

-- Rows that are live later are live now.
keep-keep :
    (now later : ℕ) (rs : List PasswordReset)
    → now ≤ later
    → keep (is_live later) (keep (λ r. not (ltb r.expires_at now)) rs) ≡ keep (is_live later) rs
unfolding is_expired
keep-keep now later [] le = refl
keep-keep now later (r ∷ rs) le = ground (arith, keep-keep now later rs le)

count-keep :
    (now : ℕ) (rs : List PasswordReset)
    → count (λ r. is_expired r now) (keep (λ r. not (ltb r.expires_at now)) rs) ≡ 0
unfolding is_expired
count-keep now [] = refl
count-keep now (r ∷ rs) = ground (arith, count-keep now rs)

-- From `w` to `t` only rows have gone that are expired by then.
abbrev pub live_rows : ℕ → World → List PasswordReset
live_rows n w = keep (is_live n) w.resets

record Cleaned (w t : World) : Type 0 where
  users : t.users ≡ w.users
  audit : t.audit ≡ w.audit
  live : (n : ℕ) → t.now ≤ n → live_rows n t ≡ live_rows n w

abbrev pub is_before_cancel : Event → Bool
is_before_cancel cancel = false
is_before_cancel (elapse _) = true
is_before_cancel (tick _) = true
is_before_cancel (leave _) = true

return_at-false : (ls : List Loop) (i : ℕ) → return_at false ls i ≡ ls
unfolding return_at
return_at-false [] i = refl
return_at-false (l ∷ ls) zero = ap (λ (b : Bool). record l { returned = b } ∷ ls) (ground arith)
return_at-false (l ∷ ls) (suc i) = ap (λ t. l ∷ t) (return_at-false ls i)

-- No goroutine returns before the context is cancelled.
run-loops :
    (t : Ticking) (es : List Event)
    → t.cancelled ≡ false
    → all is_before_cancel es ≡ true
    → (run t es).loops ≡ t.loops
unfolding run
run-loops t [] going calm = refl
run-loops t (elapse d ∷ es) going calm = run-loops (step t (elapse d)) es going calm
run-loops t (tick i ∷ es) going calm = run-loops (step t (tick i)) es going calm
run-loops t (cancel ∷ es) going calm = cc
run-loops t (leave i ∷ es) going calm =
    run-loops (step t (leave i)) es going calm
    ∙ ap (λ (b : Bool). return_at b t.loops i) going
    ∙ return_at-false t.loops i

module _ (env : Env) (w : World) where
  delete_expired-Cleaned : (t : World) → Cleaned w t → Cleaned w (Resets.delete_expired env t).1
  unfolding Resets.delete_expired
  delete_expired-Cleaned t c = elim (Bool-cases (env.fails Statement.delete_expired t)) [
    | inl down ↦ rw down c
    | inr fine ↦ rw fine (record {
      users = c.users;
      audit = c.audit;
      live = λ n later. keep-keep t.now n t.resets later ∙ c.live n later;
    })
  ]

  -- The goroutine runs the clean-up.
  abbrev CleansUp : Loop → Type 0
  CleansUp l = l.job.handler ≡ Resets.delete_expired env

  fire-Cleaned :
      (ls : List Loop) (i : ℕ) (t : World) → All CleansUp ls → Cleaned w t → Cleaned w (fire ls i t)
  unfolding fire
  fire-Cleaned [] i t all c = c
  fire-Cleaned (l ∷ ls) zero t all c = elim (Bool-cases l.returned) [
    | inl over ↦ rw over c
    | inr going ↦ rw (going, all.0) (delete_expired-Cleaned t c)
  ]
  fire-Cleaned (l ∷ ls) (suc i) t all c = fire-Cleaned ls i t all.1 c

  return_at-CleansUp :
      (cancelled : Bool) (ls : List Loop) (i : ℕ)
      → All CleansUp ls
      → All CleansUp (return_at cancelled ls i)
  unfolding return_at
  return_at-CleansUp cancelled [] i all = all
  return_at-CleansUp cancelled (l ∷ ls) zero all = all
  return_at-CleansUp cancelled (l ∷ ls) (suc i) all =
      (all.0, return_at-CleansUp cancelled ls i all.1)

  run-Cleaned :
      (t : Ticking) (es : List Event)
      → All CleansUp t.loops
      → Cleaned w t.world
      → Cleaned w (run t es).world
  unfolding run
  run-Cleaned t [] all c = c
  run-Cleaned t (elapse d ∷ es) all c =
      run-Cleaned (step t (elapse d)) es all
        (record { users = c.users; audit = c.audit; live = λ n later. c.live n (omega arith) })
  run-Cleaned t (tick i ∷ es) all c =
      run-Cleaned (step t (tick i)) es all (fire-Cleaned t.loops i t.world all c)
  run-Cleaned t (cancel ∷ es) all c = run-Cleaned (step t cancel) es all c
  run-Cleaned t (leave i ∷ es) all c =
      run-Cleaned (step t (leave i)) es (return_at-CleansUp t.cancelled t.loops i all) c

  -- Whatever ticks of the scheduler that `New` sets up, with whatever time between them, and whether
  -- or not the database answers or the context is cancelled: the users and the audit log stay as they
  -- were, and of the password resets every one that is not expired at the end is still there.
  pub clean_up_lem :
      (es : List Event)
      → let t = (run (launched (schedule env) w) es).world in
        (t.users ≡ w.users) × (t.audit ≡ w.audit) × (live_rows t.now t ≡ live_rows t.now w)
  unfolding schedule
  clean_up_lem es =
      let c =
        run-Cleaned (launched (schedule env) w) es (refl, tt)
          (record { users = refl; audit = refl; live = λ n later. refl }) in
      let t = (run (launched (schedule env) w) es).world in
      (c.users, c.audit, c.live t.now (omega arith))

  -- Whatever events before, but for a cancellation of the context: once the ticker fires and the
  -- database answers, no reset is expired.
  pub clean_up_deletes :
      (es : List Event)
      → IsUp env
      → all is_before_cancel es ≡ true
      → let t = step (run (launched (schedule env) w) es) (tick 0) in
        count (λ r. is_expired r t.world.now) t.world.resets ≡ 0
  unfolding schedule fire step Resets.delete_expired
  clean_up_deletes es up calm =
      let t = run (launched (schedule env) w) es in
      let same = run-loops (launched (schedule env) w) es refl calm in
      rw (same, up Statement.delete_expired t.world) (count-keep t.world.now t.world.resets)
