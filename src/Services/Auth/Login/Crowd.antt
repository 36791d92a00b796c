-- ===== src/Services/Auth/Login/Crowd.antt =====
-- What wrong passwords at once leave of the account.
use go_with_me.Base.{
  ℕ, ◌+◌, ◌*◌, ◌≤◌, ◌<◌, true, false, Option, none, some, List, [], ◌∷◌, ◌++◌, ◌≡◌, refl, arith,
  find?, leb, count, length, All, count-length, Bool-cases, inl, inr, ap,
}
use go_with_me.Models.{User, is_locked}
use go_with_me.World.{World, Env, IsUp, minute}
use go_with_me.Action.{ok}
use go_with_me.Repository.Users.{has_id, int4_max, with_failure, with_lock}
use go_with_me.Repository.Users.Laws.{find_by_id-up, incr_failed_attempts-up, lock_until-up}
use go_with_me.Services.Auth.{AuthService}
use go_with_me.Services.Auth.Login.AtOnce.{
  Stage, trying, failing, recounting, locking, answered, barred, has_counted, may_lock, is_barred,
  is_over, all_trying, Logins, after_reread, Step, fails, refuses, counts, rereads, locks, passes,
  Reach, start, later,
}
use go_with_me.Services.Auth.Login.Tally.{
  is_long, Inv, stays-Inv, counts-Inv, locks-Inv, passes-Inv, all_trying-none, length-all_trying,
  all_trying-IsLate,
}

module _ (env : Env) (s : AuthService) (id n : ℕ) (u₀ : User) (w₀ : World) where
  abbrev Good : Logins → Type 0
  Good t = (u : User) × Inv id n u₀.failed_attempts w₀.now s.cfg.max_failed_attempts t u

  start-Good :
      find? (has_id id) w₀.users ≡ some u₀
      → is_locked u₀ w₀.now ≡ false
      → Good (record { world = w₀; stages = all_trying n })
  start-Good row unlocked = (
    u₀,
    record {
      row = row;
      size = length-all_trying id n 0 0 0 n;
      failures = omega (arith, all_trying-none id n 0 0 0 has_counted n refl);
      clock = omega arith;
      late = all_trying-IsLate id n 0 w₀.now 0 n;
      stale = λ short. unlocked;
      unbarred = λ short. all_trying-none id n 0 0 0 is_barred n refl;
      reached = λ enough some_counted.
          absurd (omega (arith, all_trying-none id n 0 0 0 has_counted n refl));
    },
  )

  reread-Inv :
      (t : Logins) (u : User) (xs ys : List Stage)
      → t.stages ≡ xs ++ recounting ∷ ys
      → Inv id n u₀.failed_attempts w₀.now s.cfg.max_failed_attempts t u
      → Inv id n u₀.failed_attempts w₀.now s.cfg.max_failed_attempts
          (record t { stages = xs ++ after_reread env s id (ok u) t.world.now ∷ ys })
          u
  reread-Inv t u xs ys at inv =
      elim (Bool-cases (leb s.cfg.max_failed_attempts u.failed_attempts)) [
        | inl limit ↦ rw limit (
            stays-Inv id n _ _ _ t u xs ys recounting (locking (t.world.now + 30 * minute)) at refl
              (omega (arith, inv.clock)) (λ short. refl) (λ enough short waits. refl) inv)
        | inr below ↦ rw below (
            stays-Inv id n _ _ _ t u xs ys recounting answered at refl tt (λ short. refl)
              (λ enough short waits. absurd (ground arith)) inv)
      ]

  module _ (up : IsUp env) (small : u₀.failed_attempts + n < int4_max) where
    Step-Good : (t t' : Logins) → Step env s id t t' → Good t → Good t'
    Step-Good t t' (fails xs ys v password at row active unlocked wrong next) (u, inv) = (
      u,
      rw next (
          stays-Inv id n _ _ _ t u xs ys trying failing at refl tt (λ short. refl)
            (λ enough short waits. waits) inv),
    )
    Step-Good t t' (refuses xs ys v at row active locked next) (u, inv) = (
      u,
      rw next (
          stays-Inv id n _ _ _ t u xs ys trying barred at refl tt
            (λ short. absurd (ground (arith, inv.row, inv.stale short)))
            (λ enough short waits. waits) inv),
    )
    Step-Good t t' (counts xs ys at next) (u, inv) =
        let room : u.failed_attempts < int4_max =
          omega (arith, inv.failures, inv.size, count-length has_counted t.stages) in
        (
          with_failure t.world.now u,
          rw next (
              counts-Inv id n _ _ _ t u _ xs ys at
                (ap (λ q. q.1) (incr_failed_attempts-up env up id t.world inv.row room)) inv),
        )
    Step-Good t t' (rereads xs ys at next) (u, inv) =
        (u, rw (next, find_by_id-up env up id t.world inv.row) (reread-Inv t u xs ys at inv))
    Step-Good t t' (locks xs ys until at next) (u, inv) = (
      with_lock until t.world.now u,
      rw next (
          locks-Inv id n _ _ _ t u _ xs ys until at
            (ap (λ q. q.1) (lock_until-up env up id until t.world)) inv),
    )
    Step-Good t t' (passes w rows forward next) (u, inv) =
        (u, rw next (passes-Inv id n _ _ _ t u w rows forward inv))

    Reach-Good :
        (t : Logins)
        → Reach env s id w₀ n t
        → Good (record { world = w₀; stages = all_trying n })
        → Good t
    Reach-Good t start good = good
    Reach-Good t (later {t = t₁} before step) good = Step-Good t₁ t step (Reach-Good t₁ before good)

count-over :
    (ss : List Stage)
    → All (λ p. is_over p ≡ true) ss
    → (count may_lock ss ≡ 0) × (count has_counted ss + count is_barred ss ≡ length ss)
count-over [] h = (refl, refl)
count-over (trying ∷ ss) h = cc
count-over (failing ∷ ss) h = cc
count-over (recounting ∷ ss) h = cc
count-over (locking until ∷ ss) h = cc
count-over (answered ∷ ss) h =
    let rest = count-over ss h.1 in (omega (arith, rest.0), omega (arith, rest.1))
count-over (barred ∷ ss) h =
    let rest = count-over ss h.1 in (omega (arith, rest.0), omega (arith, rest.1))

long-until :
    (t : ℕ) (o : Option ℕ) → is_long t o ≡ true → (until : ℕ) × (o ≡ some until) × (t ≤ until)
long-until t none h = cc
long-until t (some until) h = (until, refl, ground arith)

-- However `n` calls of `Login` interleave, each with a wrong password for one user who is not locked,
-- and no other call writes the users meanwhile: where the database answers and the count stays below
-- the column's 32 bits, and `n` is at least one and brings the count to the limit, once every call is
-- over the account is locked for at least thirty minutes from the time at which they began.
pub lockout_at_once :
    (env : Env) (s : AuthService) (n : ℕ) (u : User) (w : World) (t : Logins)
    → IsUp env
    → find? (has_id u.id) w.users ≡ some u
    → is_locked u w.now ≡ false
    → u.failed_attempts + n < int4_max
    → 1 ≤ n
    → s.cfg.max_failed_attempts ≤ u.failed_attempts + n
    → Reach env s u.id w n t
    → All (λ p. is_over p ≡ true) t.stages
    → (v : User) × (find? (has_id u.id) t.world.users ≡ some v)
      × (until : ℕ) × (v.locked_until ≡ some until)
      × (w.now + 30 * minute ≤ until)
lockout_at_once env s n u w t up row unlocked small some_tried enough reached over =
    let (v, inv) =
      Reach-Good env s u.id n u w up small t reached (start-Good env s u.id n u w row unlocked) in
    let (none_left, all_counted) = count-over t.stages over in
    elim (Bool-cases (is_long (w.now + 30 * minute) v.locked_until)) [
      | inl long ↦
          let (until, lock, late) = long-until (w.now + 30 * minute) v.locked_until long in
          (v, inv.row, until, lock, late)
      | inr short ↦
          let unbarred = inv.unbarred short in
          let counted_all : v.failed_attempts ≡ u.failed_attempts + n =
            omega (arith, inv.failures, all_counted, inv.size, unbarred) in
          absurd (
            omega (
              arith,
              none_left,
              inv.reached (omega (arith, counted_all))
                  (omega (arith, all_counted, inv.size, unbarred)) short,
            ))
    ]
