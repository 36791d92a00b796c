-- ===== src/Changes/Users.antt =====
-- The statements of the user repository, as writes.
use go_with_me.Base.{
  ℕ, String, Bool, true, ◌&&◌, not, ◌||◌, ◌⊎◌, if◌then◌else◌, ◌≡◌, refl, arith, Bool-cases, inl,
  inr,
}
use go_with_me.Models.{User}
use go_with_me.World.{World, Env, Statement, create_user, update_user}
use go_with_me.Action.{modify}
use go_with_me.Action.Keeps.{Keeps, Keeps-modify, keeps_rules}
use go_with_me.Repository.Users.{
  CreateUserParams, UpdateUserParams, update_by_id, create, find_by_id, find_by_email, update_row,
  update, update_password, incr_failed_attempts, lock_until, clear_lock, set_totp, deactivate,
  count_super_admins, with_password, with_failure, with_lock, without_lock, with_totp,
  without_access, with_params, role_fits, is_none, is_active_super_admin, new_user, is_insertable,
}
use go_with_me.Changes.{IsChange, IsEdit, Spares, Write, Changes}

module _ (env : Env) {P : World → Type 0} where
  pub find_by_id-Keeps : (id : ℕ) → Keeps P (find_by_id env id)
  unfolding find_by_id
  find_by_id-Keeps id = search keeps_rules

  pub find_by_email-Keeps : (email : String) → Keeps P (find_by_email env email)
  unfolding find_by_email
  find_by_email-Keeps email = search keeps_rules

  pub count_super_admins-Keeps : Keeps P (count_super_admins env)
  unfolding count_super_admins
  count_super_admins-Keeps = search keeps_rules

-- A change of columns that no rule speaks of.
abbrev KeepsKeys : (User → User) → Type 0
KeepsKeys f =
    (u : User)
    → ((f u).id ≡ u.id)
      × ((f u).email ≡ u.email)
      × ((f u).is_active ≡ u.is_active)
      × ((f u).role ≡ u.role)

pub IsEdit-of_KeepsKeys : (f : User → User) → KeepsKeys f → IsEdit f
IsEdit-of_KeepsKeys f k = record {
  change = record {
    id = λ u. (k u).0;
    email = λ u. (k u).1;
    inactive = λ u h. rw ((k u).2) h;
    role = λ u h. rw ((k u).3) h;
  };
  admin = λ u h. rw ((k u).2, (k u).3) h;
}

module _ {w₀ : World} where
  -- An edit whose new row depends on the world, as it does on the clock.
  pub edit-Keeps :
      (id : ℕ) (f : World → User → User)
      → ((w : World) → KeepsKeys (f w))
      → Keeps (Changes w₀) (modify (λ w. update_by_id id (f w) w))
  edit-Keeps id f e =
      Keeps-modify _
        (λ w h. Changes.next h (Write.edit w id (f w) (IsEdit-of_KeepsKeys (f w) (e w))))

module _ (env : Env) {w₀ : World} where
  pub update_password-Changes :
      (id : ℕ) (hash : String) → Keeps (Changes w₀) (update_password env id hash)
  unfolding update_password
  update_password-Changes id hash =
      search
        (
          keeps_rules,
          edit-Keeps id (λ w. with_password hash w.now) (λ w u. (refl, refl, refl, refl)),
        )
        depth 9

  pub incr_failed_attempts-Changes : (id : ℕ) → Keeps (Changes w₀) (incr_failed_attempts env id)
  unfolding incr_failed_attempts
  incr_failed_attempts-Changes id =
      search
        (keeps_rules, edit-Keeps id (λ w. with_failure w.now) (λ w u. (refl, refl, refl, refl)))

  pub lock_until-Changes : (id until : ℕ) → Keeps (Changes w₀) (lock_until env id until)
  unfolding lock_until
  lock_until-Changes id until =
      search
        (keeps_rules, edit-Keeps id (λ w. with_lock until w.now) (λ w u. (refl, refl, refl, refl)))

  pub clear_lock-Changes : (id : ℕ) → Keeps (Changes w₀) (clear_lock env id)
  unfolding clear_lock
  clear_lock-Changes id =
      search
        (keeps_rules, edit-Keeps id (λ w. without_lock w.now) (λ w u. (refl, refl, refl, refl)))

  pub set_totp-Changes :
      (id : ℕ) (secret : String) (enabled : Bool)
      → Keeps (Changes w₀) (set_totp env id secret enabled)
  unfolding set_totp
  set_totp-Changes id secret enabled = search (
    keeps_rules,
    edit-Keeps id (λ w. with_totp secret enabled w.now) (λ w u. (refl, refl, refl, refl)),
  )

  -- The insertion is tested against the constraints in the world that it changes.
  create_at :
      (params : CreateUserParams) (w : World) → Changes w₀ w → Changes w₀ (create env params w).1
  unfolding create
  create_at params w h = elim (Bool-cases (env.fails create_user w)) [
    | inl down ↦ rw down h
    | inr up ↦ elim (Bool-cases (is_insertable (new_user params (env.new_id w) w.now) w)) [
      | inl fits ↦ rw (up, fits) (Changes.next h (Write.insert w params (env.new_id w) fits))
      | inr refused ↦ rw (up, refused) h
    ]
  ]

  pub create-Changes : (params : CreateUserParams) → Keeps (Changes w₀) (create env params)
  create-Changes params = record { at = create_at params }

-- Either an active super admin is left, or none is lost.
abbrev pub Allows : ℕ → (User → User) → World → Type 0
Allows id f w =
    Spares id w ⊎ ((u : User) → is_active_super_admin u ≡ true → is_active_super_admin (f u) ≡ true)

Write-allowed :
    (w : World) (id : ℕ) (f : User → User)
    → IsChange f
    → Allows id f w
    → Write w (update_by_id id f w)
Write-allowed w id f c (inl spared) = Write.demote w id f c spared
Write-allowed w id f c (inr kept) = Write.edit w id f (record { change = c; admin = kept })

pub with_params-IsChange :
    (params : UpdateUserParams) (now : ℕ)
    → role_fits params.role ≡ true
    → IsChange (with_params params now)
with_params-IsChange params now fits = record {
  id = λ u. ground arith;
  email = λ u. ground arith;
  inactive = λ u h. ground arith;
  role = λ u h. ground arith;
}

without_access-IsChange : (now : ℕ) → IsChange (without_access now)
without_access-IsChange now = record {
  id = λ u. refl;
  email = λ u. refl;
  inactive = λ u h. refl;
  role = λ u h. h;
}

module _ (env : Env) where
  pub update_row-world :
      (id : ℕ) (params : UpdateUserParams) (w : World)
      → (update_row env id params w).1 ≡ (
          if env.fails update_user w || not (role_fits params.role)
          then w
          else update_by_id id (with_params params w.now) w)
  unfolding update_row
  update_row-world id params w = ground arith

  deactivate-world :
      (id : ℕ) (w : World)
      → (deactivate env id w).1
        ≡ (if env.fails Statement.deactivate w then w else update_by_id id (without_access w.now) w)
  unfolding deactivate
  deactivate-world id w = ground arith

  pub update-world :
      (id : ℕ) (params : UpdateUserParams) (w : World)
      → (update env id params w).1
        ≡ (if is_none params.name && is_none params.role then w else (update_row env id params w).1)
  unfolding update find_by_id
  update-world id params w = ground arith

  module _ {w₀ : World} where
    update_row-Changes :
        (id : ℕ) (params : UpdateUserParams) (w : World)
        → Changes w₀ w
        → Allows id (with_params params w.now) w
        → Changes w₀ (update_row env id params w).1
    update_row-Changes id params w h allowed =
        rw (update_row-world id params w) (elim (Bool-cases (env.fails update_user w)) [
          | inl down ↦ rw down h
          | inr up ↦ elim (Bool-cases (role_fits params.role)) [
            | inl fits ↦
                rw (up, fits)
                  (Changes.next h (
                    Write-allowed w id (with_params params w.now)
                      (with_params-IsChange params w.now fits) allowed))
            | inr odd ↦ rw (up, odd) h
          ]
        ])

    pub update-Changes :
        (id : ℕ) (params : UpdateUserParams) (w : World)
        → Changes w₀ w
        → Allows id (with_params params w.now) w
        → Changes w₀ (update env id params w).1
    update-Changes id params w h allowed =
        rw (update-world id params w)
          (elim (Bool-cases (is_none params.name && is_none params.role)) [
            | inl unset ↦ rw unset h
            | inr given ↦ rw given (update_row-Changes id params w h allowed)
          ])

    pub deactivate-Changes :
        (id : ℕ) (w : World) → Changes w₀ w → Spares id w → Changes w₀ (deactivate env id w).1
    deactivate-Changes id w h spared =
        rw (deactivate-world id w) (elim (Bool-cases (env.fails Statement.deactivate w)) [
          | inl down ↦ rw down h
          | inr up ↦ rw up (
              Changes.next h
                (Write.demote w id (without_access w.now) (without_access-IsChange w.now) spared))
        ])
