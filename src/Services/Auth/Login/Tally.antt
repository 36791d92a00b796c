-- ===== src/Services/Auth/Login/Tally.antt =====
-- The invariant of wrong passwords at once, step by step.
use go_with_me.Base.{
  ℕ, zero, suc, ◌+◌, ◌*◌, ◌≤◌, Bool, true, false, Option, none, some, List, [], ◌∷◌, ◌++◌, ◌≡◌,
  refl, arith, find?, leb, count, length, All, count-at, length-at, All-at, at-All, Bool-cases, inl,
  inr, update_where,
}
use go_with_me.Models.{User, is_locked}
use go_with_me.World.{World, minute}
use go_with_me.Repository.Users.{has_id, with_failure, with_lock, update_by_id}
use go_with_me.Services.Auth.Login.AtOnce.{
  Stage, trying, failing, recounting, locking, answered, barred, has_counted, may_lock, is_barred,
  all_trying, Logins,
}

-- Locked until `t` or later.
abbrev pub is_long : ℕ → Option ℕ → Bool
is_long t none = false
is_long t (some until) = leb t until

abbrev pub IsLate : ℕ → Stage → Type 0
IsLate t (locking until) = t ≤ until
IsLate t trying = Unit {0}
IsLate t failing = Unit {0}
IsLate t recounting = Unit {0}
IsLate t answered = Unit {0}
IsLate t barred = Unit {0}

-- A call for each of `n` passwords, from a world in which the failures are `before`; `end` is thirty
-- minutes after that, and `limit` the number at which the account is locked.
pub record Inv (id n before now₀ limit : ℕ) (t : Logins) (u : User) : Type 0 where
  pub row : find? (has_id id) t.world.users ≡ some u
  pub size : length t.stages ≡ n
  pub failures : u.failed_attempts ≡ before + count has_counted t.stages
  pub clock : now₀ ≤ t.world.now
  pub late : All (IsLate (now₀ + 30 * minute)) t.stages
  pub stale : is_long (now₀ + 30 * minute) u.locked_until ≡ false → is_locked u t.world.now ≡ false
  pub unbarred : is_long (now₀ + 30 * minute) u.locked_until ≡ false → count is_barred t.stages ≡ 0
  pub reached :
      limit ≤ u.failed_attempts
      → 1 ≤ count has_counted t.stages
      → is_long (now₀ + 30 * minute) u.locked_until ≡ false
      → 1 ≤ count may_lock t.stages

same_row :
    (id : ℕ) (f : User → User)
    → ((x : User) → (f x).id ≡ x.id)
    → (us : List User) {u : User} → find? (has_id id) us ≡ some u
    → find? (has_id id) (update_where (has_id id) f us) ≡ some (f u)
same_row id f stable [] h = cc
same_row id f stable (x ∷ us) {u} h = ground (arith, stable x, same_row id f stable us {u = u})

module _ (id n before now₀ limit : ℕ) where
  -- A call moves from `p` to `q`, and the row stays.
  pub stays-Inv :
      (t : Logins) (u : User) (xs ys : List Stage) (p q : Stage)
      → t.stages ≡ xs ++ p ∷ ys
      → has_counted q ≡ has_counted p
      → IsLate (now₀ + 30 * minute) q
      → (is_long (now₀ + 30 * minute) u.locked_until ≡ false → is_barred q ≡ is_barred p)
      → (limit ≤ u.failed_attempts
          → is_long (now₀ + 30 * minute) u.locked_until ≡ false
          → may_lock p ≡ true
          → may_lock q ≡ true)
      → Inv id n before now₀ limit t u
      → Inv id n before now₀ limit (record t { stages = xs ++ q ∷ ys }) u
  stays-Inv t u xs ys p q at same late bars pends inv = record {
    row = inv.row;
    size = omega (arith, length-at xs ys p, length-at xs ys q, (rw at at inv.size));
    failures = ground (
      arith,
      count-at has_counted xs ys p,
      count-at has_counted xs ys q,
      (rw at at inv.failures),
    );
    clock = inv.clock;
    late = at-All _ xs ys q late (All-at _ xs ys p (rw at at inv.late)).1;
    stale = inv.stale;
    unbarred = λ short. ground (
      arith,
      count-at is_barred xs ys p,
      count-at is_barred xs ys q,
      bars short,
      (rw at at inv.unbarred short),
    );
    reached = λ enough some_counted short.
        let before_some : 1 ≤ count has_counted t.stages =
          ground (arith, at, count-at has_counted xs ys p, count-at has_counted xs ys q) in
        let was_pending = inv.reached enough before_some short in
        elim (Bool-cases (may_lock p)) [
          | inl waits ↦ ground (arith, count-at may_lock xs ys q, pends enough short waits)
          | inr moves ↦ ground (arith, at, count-at may_lock xs ys q, count-at may_lock xs ys p)
        ];
  }

  -- The row with one more failure, counted by a call.
  pub counts-Inv :
      (t : Logins) (u : User) (w : World) (xs ys : List Stage)
      → t.stages ≡ xs ++ failing ∷ ys
      → w ≡ update_by_id id (with_failure t.world.now) t.world
      → Inv id n before now₀ limit t u
      → Inv id n before now₀ limit
          (record { world = w; stages = xs ++ recounting ∷ ys })
          (with_failure t.world.now u)
  unfolding is_locked
  counts-Inv t u w xs ys at written inv = rw written (record {
    row = same_row id (with_failure t.world.now) (λ x. refl) t.world.users inv.row;
    size = omega (arith, length-at xs ys failing, length-at xs ys recounting, (rw at at inv.size));
    failures = ground (
      arith,
      count-at has_counted xs ys failing,
      count-at has_counted xs ys recounting,
      (rw at at inv.failures),
    );
    clock = inv.clock;
    late = at-All _ xs ys recounting tt (All-at _ xs ys failing (rw at at inv.late)).1;
    stale = inv.stale;
    unbarred = λ short. ground (
      arith,
      count-at is_barred xs ys failing,
      count-at is_barred xs ys recounting,
      (rw at at inv.unbarred short),
    );
    reached = λ enough some_counted short. ground (arith, count-at may_lock xs ys recounting);
  })

  -- The row locked, by a call.
  pub locks-Inv :
      (t : Logins) (u : User) (w : World) (xs ys : List Stage) (until : ℕ)
      → t.stages ≡ xs ++ locking until ∷ ys
      → w ≡ update_by_id id (with_lock until t.world.now) t.world
      → Inv id n before now₀ limit t u
      → Inv id n before now₀ limit
          (record { world = w; stages = xs ++ answered ∷ ys })
          (with_lock until t.world.now u)
  locks-Inv t u w xs ys until at written inv =
      let (far, rest) = All-at _ xs ys (locking until) (rw at at inv.late) in
      rw written (record {
        row = same_row id (with_lock until t.world.now) (λ x. refl) t.world.users inv.row;
        size =
            omega (
              arith,
              length-at xs ys (locking until),
              length-at xs ys answered,
              (rw at at inv.size),
            );
        failures = ground (
          arith,
          count-at has_counted xs ys (locking until),
          count-at has_counted xs ys answered,
          (rw at at inv.failures),
        );
        clock = inv.clock;
        late = at-All _ xs ys answered tt rest;
        stale = λ short. absurd (ground arith);
        unbarred = λ short. absurd (ground arith);
        reached = λ enough some_counted short. absurd (ground arith);
      })

  pub passes-Inv :
      (t : Logins) (u : User) (w : World)
      → w.users ≡ t.world.users
      → t.world.now ≤ w.now
      → Inv id n before now₀ limit t u
      → Inv id n before now₀ limit (record t { world = w }) u
  unfolding is_locked
  passes-Inv t u w same_rows forward inv = record {
    row = rw same_rows inv.row;
    size = inv.size;
    failures = inv.failures;
    clock = omega (arith, inv.clock);
    late = inv.late;
    stale = λ short. ground (arith, inv.stale short);
    unbarred = inv.unbarred;
    reached = inv.reached;
  }

  pub all_trying-none : (f : Stage → Bool) (m : ℕ) → f trying ≡ false → count f (all_trying m) ≡ 0
  all_trying-none f zero h = refl
  all_trying-none f (suc m) h = ground (arith, all_trying-none f m h)

  pub length-all_trying : (m : ℕ) → length (all_trying m) ≡ m
  length-all_trying zero = refl
  length-all_trying (suc m) = omega (arith, length-all_trying m)

  pub all_trying-IsLate : (m : ℕ) → All (IsLate (now₀ + 30 * minute)) (all_trying m)
  all_trying-IsLate zero = tt
  all_trying-IsLate (suc m) = (tt, all_trying-IsLate m)
