-- ===== src/App/Table.antt =====
-- The rows of `users`: their keys under an update, and the number of super admins.
use go_with_me.Base.{
  ℕ, ◌+◌, ◌≤◌, String, true, false, some, List, [], ◌∷◌, ◌≡◌, refl, arith, Bool-cases, inl, inr,
  any, find?, count, update_where,
}
use go_with_me.Models.{User}
use go_with_me.Models.Roles.{is_role}
use go_with_me.Repository.Users.{has_id, has_email, normal_email, is_active_super_admin}
use go_with_me.Changes.{IsChange, IsEdit}

-- The constraints of the table: ids and addresses occur once, addresses are normalised, roles are of
-- the enum.
abbrev pub IsTable : List User → Type 0
IsTable [] = Unit
IsTable (u ∷ us) =
    (any (has_id u.id) us ≡ false)
    × (any (has_email u.email) us ≡ false)
    × (normal_email u.email ≡ u.email)
    × (is_role u.role ≡ true)
    × IsTable us

module _ (f : User → User) (c : IsChange f) (id : ℕ) where
  any-has_id-update :
      (k : ℕ) (us : List User) → any (has_id k) (update_where (has_id id) f us) ≡ any (has_id k) us
  any-has_id-update k [] = refl
  any-has_id-update k (u ∷ us) = ground (arith, c.id u, any-has_id-update k us)

  any-has_email-update :
      (e : String) (us : List User)
      → any (has_email e) (update_where (has_id id) f us) ≡ any (has_email e) us
  any-has_email-update e [] = refl
  any-has_email-update e (u ∷ us) = ground (arith, c.email u, any-has_email-update e us)

  pub update-IsTable : (us : List User) → IsTable us → IsTable (update_where (has_id id) f us)
  update-IsTable [] t = tt
  update-IsTable (u ∷ us) t = ground (
    arith,
    c.id u,
    c.email u,
    c.role u,
    any-has_id-update u.id us,
    any-has_email-update u.email us,
    update-IsTable us t.4,
  )

abbrev pub admins : List User → ℕ
admins = count is_active_super_admin

-- An edit loses no super admin.
pub admins-edit :
    (f : User → User) (e : IsEdit f) (id : ℕ) (us : List User)
    → admins us ≤ admins (update_where (has_id id) f us)
admins-edit f e id [] = omega arith
admins-edit f e id (u ∷ us) = ground (arith, e.admin u, admins-edit f e id us)

pub update_where-absent :
    (f : User → User) (id : ℕ) (us : List User)
    → any (has_id id) us ≡ false
    → update_where (has_id id) f us ≡ us
update_where-absent f id [] h = refl
update_where-absent f id (u ∷ us) h = ground (arith, update_where-absent f id us)

-- Where ids occur once, an update changes one row at most.
pub admins-update :
    (f : User → User) (id : ℕ) (us : List User)
    → IsTable us
    → admins us ≤ admins (update_where (has_id id) f us) + 1
admins-update f id [] t = omega arith
admins-update f id (u ∷ us) t =
    ground (arith, admins-update f id us t.4, update_where-absent f id us)

-- If that row is no active super admin, none is lost.
pub admins-update_other :
    (f : User → User) (id : ℕ) (us : List User)
    → IsTable us
    → ((u : User) → find? (has_id id) us ≡ some u → is_active_super_admin u ≡ false)
    → admins us ≤ admins (update_where (has_id id) f us)
admins-update_other f id [] t other = omega arith
admins-update_other f id (u ∷ us) t other = elim (Bool-cases (has_id id u)) [
  | inl same ↦ ground (arith, other u, update_where-absent f id us)
  | inr differs ↦ ground (arith, admins-update_other f id us t.4 (λ u' e. other u' (rw differs e)))
]
