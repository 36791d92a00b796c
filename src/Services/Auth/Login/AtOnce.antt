-- ===== src/Services/Auth/Login/AtOnce.antt =====
-- Calls of `Login` at once, each with a wrong password for one user. A call reads the row, counts the
-- failure, reads the row again, and locks it: other calls may come between.
use go_with_me.Base.{
  ℕ, zero, suc, ◌+◌, ◌*◌, ◌≤◌, Bool, true, false, some, List, [], ◌∷◌, ◌++◌, ◌≡◌, find?,
  if◌then◌else◌, String,
}
use go_with_me.Models.{User, is_locked}
use go_with_me.World.{World, Env, minute}
use go_with_me.Action.{Result}
use go_with_me.Repository.Users
use go_with_me.Repository.Users.{has_id, int4_max, with_failure, with_lock, update_by_id}
use go_with_me.Services.Auth.{AuthService}
use go_with_me.Services.Auth.Login.{reached_limit}

-- Where a call stands: before it reads the row, before it counts the failure, before it reads the
-- count, before it locks the row until a time, and at its end, as for a wrong password or as for a
-- locked account.
pub data Stage : Type 0 where
  trying : Stage
  failing : Stage
  recounting : Stage
  locking : ℕ → Stage
  answered : Stage
  barred : Stage

abbrev pub has_counted : Stage → Bool
has_counted trying = false
has_counted failing = false
has_counted recounting = true
has_counted (locking _) = true
has_counted answered = true
has_counted barred = false

abbrev pub may_lock : Stage → Bool
may_lock trying = false
may_lock failing = false
may_lock recounting = true
may_lock (locking _) = true
may_lock answered = false
may_lock barred = false

abbrev pub is_barred : Stage → Bool
is_barred trying = false
is_barred failing = false
is_barred recounting = false
is_barred (locking _) = false
is_barred answered = false
is_barred barred = true

abbrev pub is_over : Stage → Bool
is_over trying = false
is_over failing = false
is_over recounting = false
is_over (locking _) = false
is_over answered = true
is_over barred = true

abbrev pub all_trying : ℕ → List Stage
all_trying zero = []
all_trying (suc n) = trying ∷ all_trying n

pub record Logins : Type 0 where
  pub world : World
  pub stages : List Stage

module _ (env : Env) (s : AuthService) (id : ℕ) where
  -- After the second reading, at `now`.
  abbrev pub after_reread : Result User → ℕ → Stage
  after_reread reread now =
      if reached_limit env s reread then locking (now + 30 * minute) else answered

  pub data Step (t t' : Logins) : Type 0 where
    fails :
        (xs ys : List Stage) (u : User) (password : String)
        → t.stages ≡ xs ++ trying ∷ ys
        → find? (has_id id) t.world.users ≡ some u
        → u.is_active ≡ true
        → is_locked u t.world.now ≡ false
        → env.compare_hash u.password_hash password ≡ false
        → t' ≡ record t { stages = xs ++ failing ∷ ys }
        → Step t t'
    refuses :
        (xs ys : List Stage) (u : User)
        → t.stages ≡ xs ++ trying ∷ ys
        → find? (has_id id) t.world.users ≡ some u
        → u.is_active ≡ true
        → is_locked u t.world.now ≡ true
        → t' ≡ record t { stages = xs ++ barred ∷ ys }
        → Step t t'
    counts :
        (xs ys : List Stage)
        → t.stages ≡ xs ++ failing ∷ ys
        → t' ≡ record {
          world = (Users.incr_failed_attempts env id t.world).1;
          stages = xs ++ recounting ∷ ys;
        }
        → Step t t'
    rereads :
        (xs ys : List Stage)
        → t.stages ≡ xs ++ recounting ∷ ys
        → t' ≡ record t {
          stages = xs ++ after_reread (Users.find_by_id env id t.world).0 t.world.now ∷ ys;
        }
        → Step t t'
    locks :
        (xs ys : List Stage) (until : ℕ)
        → t.stages ≡ xs ++ locking until ∷ ys
        → t' ≡ record {
          world = (Users.lock_until env id until t.world).1;
          stages = xs ++ answered ∷ ys;
        }
        → Step t t'
    -- time passes, and other calls write other tables
    passes :
        (w : World)
        → w.users ≡ t.world.users
        → t.world.now ≤ w.now
        → t' ≡ record t { world = w }
        → Step t t'

  pub data Reach (w : World) (n : ℕ) : Logins → Type 0 where
    start : Reach w n (record { world = w; stages = all_trying n })
    later : {t t' : Logins} → Reach w n t → Step t t' → Reach w n t'
