-- ===== src/App/Race.antt =====
-- Two calls of `Deactivate` of internal/services/user_service.go at once. Each counts the super admins
-- first and writes later, with no transaction around, so the counts of both may come before the writes.
pub mod Demotions
use go_with_me.Base.{
  ℕ, suc, ◌≢◌, true, false, some, List, [], ◌∷◌, ◌≡◌, refl, arith, Bool-cases, inl, inr, find?,
  update_where, ◌=ₛ◌, if◌then◌else◌,
}
use go_with_me.Models.{User}
use go_with_me.Models.Roles.{role_super_admin}
use go_with_me.World.{World, Env, IsUp, Statement}
use go_with_me.Action.{Action, Result, ok, err, bind_of, done, ◌>>=◌, ◌>>◌}
use go_with_me.Repository.Users
use go_with_me.Repository.Users.{has_id, is_active_super_admin, without_access, update_by_id}
use go_with_me.Repository.Users.Laws.{find_by_id-up}
use go_with_me.Services.UserAdmin
use go_with_me.Services.UserAdmin.{require_two_admins}
use go_with_me.Changes.{IsChange}
use go_with_me.App.Table.{IsTable, admins, update_where-absent, update-IsTable}
use go_with_me.App.Valid.{IsValid}

-- What `Deactivate` does before its UPDATE.
abbrev pub guard_role : Env → User → Action (Unit {0})
guard_role env u =
    if u.role =ₛ role_super_admin
    then require_two_admins env "cannot deactivate the last super admin"
    else done

abbrev pub guard : Env → ℕ → Action (Unit {0})
guard env id = do u ← Users.find_by_id env id; guard_role env u

pub bind_twice :
    {A B C : Type 0} (f : A → Action B) (k : Action C) (r : Result A × World)
    → bind_of (λ a. f a >> k) r ≡ bind_of (λ _. k) (bind_of f r)
bind_twice f k (ok a, w) = refl
bind_twice f k (err e, w) = refl

deactivate-split :
    (env : Env) (id : ℕ) (w : World)
    → UserAdmin.deactivate env id w ≡ (do guard env id; Users.deactivate env id) w
unfolding UserAdmin.deactivate
deactivate-split env id w =
    bind_twice (guard_role env) (Users.deactivate env id) (Users.find_by_id env id w)

without_access-IsChange : (now : ℕ) → IsChange (without_access now)
without_access-IsChange now = record {
  id = λ u. refl;
  email = λ u. refl;
  inactive = λ u h. refl;
  role = λ u h. h;
}

-- A write after which the user is no active super admin.
pub record IsLoss (f : User → User) : Type 0 where
  pub id : (u : User) → (f u).id ≡ u.id
  pub lost : (u : User) → is_active_super_admin (f u) ≡ false

without_access-IsLoss : (now : ℕ) → IsLoss (without_access now)
without_access-IsLoss now = record { id = λ u. refl; lost = λ u. ground arith }

module _ (f : User → User) (loss : IsLoss f) (id : ℕ) where
  admins-loss :
      (us : List User) (u : User)
      → IsTable us
      → find? (has_id id) us ≡ some u
      → is_active_super_admin u ≡ true
      → suc (admins (update_where (has_id id) f us)) ≡ admins us
  admins-loss [] u t found super = cc
  admins-loss (x ∷ us) u t found super = elim (Bool-cases (has_id id x)) [
    | inl same ↦ ground (arith, update_where-absent f id us, loss.lost x)
    | inr differs ↦ ground (arith, admins-loss us u t.4)
  ]

  find?-other :
      (other : ℕ) (us : List User) (v : User)
      → id ≢ other
      → find? (has_id other) us ≡ some v
      → find? (has_id other) (update_where (has_id id) f us) ≡ some v
  find?-other other [] v differ found = cc
  find?-other other (x ∷ us) v differ found =
      ground (arith, find?-other other us v differ, loss.id x)

-- Two such writes, to the two super admins of a table.
pub none-left :
    (f : User → User)
    → IsChange f
    → IsLoss f
    → (a b : ℕ) (u v : User) (us : List User) → IsTable us
    → admins us ≡ 2
    → a ≢ b
    → find? (has_id a) us ≡ some u
    → is_active_super_admin u ≡ true
    → find? (has_id b) us ≡ some v
    → is_active_super_admin v ≡ true
    → admins (update_where (has_id b) f (update_where (has_id a) f us)) ≡ 0
none-left f change loss a b u v us valid two differ found_a super_a found_b super_b =
    let rest = update_where (has_id a) f us in
    let one = admins-loss f loss a us u valid found_a super_a in
    let still = find?-other f loss a b us v differ found_b in
    let last = admins-loss f loss b rest v (update-IsTable f change a us valid) still super_b in
    omega (arith, one, last, two)

module _ (env : Env) (up : IsUp env) where
  pub guard-passes :
      (id : ℕ) (u : User) (w : World)
      → find? (has_id id) w.users ≡ some u
      → admins w.users ≡ 2
      → guard env id w ≡ (ok tt, w)
  unfolding Users.count_super_admins
  guard-passes id u w found two =
      rw (find_by_id-up env up id w found) (ground (arith, up Statement.count_super_admins w))

  deactivate-world :
      (id : ℕ) (w : World)
      → (Users.deactivate env id w).1 ≡ update_by_id id (without_access w.now) w
  unfolding Users.deactivate
  deactivate-world id w = ground (arith, up Statement.deactivate w)

  -- Where the database answers and a valid table has exactly two active super admins: the guards of
  -- two calls of `Deactivate`, one for each of the two, pass one after the other and write nothing;
  -- and when the UPDATEs of both follow, no active super admin is left. A call is its guard and then
  -- its UPDATE.
  pub race_loses_admins :
      (a b : ℕ) (u v : User) (w : World)
      → IsValid w
      → admins w.users ≡ 2
      → a ≢ b
      → find? (has_id a) w.users ≡ some u
      → is_active_super_admin u ≡ true
      → find? (has_id b) w.users ≡ some v
      → is_active_super_admin v ≡ true
      → let w' : World = (Users.deactivate env a w).1 in
        (UserAdmin.deactivate env a w ≡ (do guard env a; Users.deactivate env a) w)
        × (guard env a w ≡ (ok tt, w))
        × (guard env b w ≡ (ok tt, w))
        × (admins (Users.deactivate env b w').1.users ≡ 0)
  race_loses_admins a b u v w valid two differ found_a super_a found_b super_b =
      let f = without_access w.now in
      let w₁ : World = update_by_id a f w in
      (
        deactivate-split env a w,
        guard-passes a u w found_a two,
        guard-passes b v w found_b two,
        rw (deactivate-world a w, deactivate-world b w₁)
            (none-left f (without_access-IsChange w.now) (without_access-IsLoss w.now) a b u v
              w.users valid two differ found_a super_a found_b super_b),
      )
