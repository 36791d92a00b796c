-- ===== src/Http/Permissions.antt =====
-- The permission check of the middleware and that of the model of a user.
use go_with_me.Base.{
  String, Bool, true, false, not, ◌||◌, some, none, List, [], ◌∷◌, ◌≡◌, refl, sym, ◌∙◌, arith, ◌⊎◌,
  inl, inr, any, all, find?, ◌=ₛ◌, Bool-cases,
}
use go_with_me.Models.Roles.{role_permissions, has_permission}
use go_with_me.World.{World}
use go_with_me.Http.{HttpRequest, Identity, Handler}
use go_with_me.Http.Roles.{require_permission, holds}
use go_with_me.Http.Guarded.{IsRefusal}

any-|| :
    (p q : String → Bool) (xs : List String) → any (λ x. p x || q x) xs ≡ (any p xs || any q xs)
any-|| p q [] = refl
any-|| p q (x ∷ xs) = ground (arith, any-|| p q xs)

missing_one :
    (p : String → Bool) (xs : List String)
    → ((all p xs ≡ true) × (find? (λ x. not (p x)) xs ≡ none))
      ⊎ ((all p xs ≡ false) × (x : String) × (find? (λ x. not (p x)) xs ≡ some x))
missing_one p [] = inl (refl, refl)
missing_one p (x ∷ xs) = elim (Bool-cases (p x)) [
  | inl has ↦ elim (missing_one p xs) [
    | inl (every, found) ↦ inl (rw has every, rw has found)
    | inr (some_lack, y, found) ↦ inr (rw has some_lack, y, rw has found)
  ]
  | inr lacks ↦ inr (rw lacks refl, x, rw lacks refl)
]

holds-has_permission :
    (role perm : String)
    → (holds (role_permissions role) "*" || holds (role_permissions role) perm)
      ≡ has_permission role perm
unfolding has_permission
holds-has_permission role perm =
    sym (any-|| (λ p. p =ₛ "*") (λ p. p =ₛ perm) (role_permissions role))

all-holds :
    (role : String) (perms : List String)
    → holds (role_permissions role) "*" ≡ false
    → all (holds (role_permissions role)) perms ≡ all (has_permission role) perms
all-holds role [] star = refl
all-holds role (p ∷ perms) star =
    ground (arith, holds-has_permission role p, all-holds role perms star)

all-star :
    (role : String) (perms : List String)
    → holds (role_permissions role) "*" ≡ true
    → all (has_permission role) perms ≡ true
all-star role [] star = refl
all-star role (p ∷ perms) star =
    ground (arith, holds-has_permission role p, all-star role perms star)

-- For a session that carries the permissions of its role, as every session does that is issued, the
-- middleware lets a request on exactly if `HasPermission` grants every permission that it asks for,
-- and answers 403 otherwise.
pub require_permission_lem :
    (role : String) (perms : List String) (next : Handler) (r : HttpRequest) (i : Identity)
    (w : World)
    → i.user_permissions ≡ role_permissions role
    → ((all (has_permission role) perms ≡ true)
        × (require_permission perms next r i w ≡ next r i w))
      ⊎ ((all (has_permission role) perms ≡ false)
          × IsRefusal 403 w (require_permission perms next r i w))
unfolding require_permission
require_permission_lem role perms next r i w carried =
    elim (Bool-cases (holds (role_permissions role) "*")) [
      | inl star ↦ inl (all-star role perms star, rw (carried, star) refl)
      | inr plain ↦ elim (missing_one (holds (role_permissions role)) perms) [
        | inl (every, found) ↦
            inl (sym (all-holds role perms plain) ∙ every, rw (carried, plain, found) refl)
        | inr (some_lack, missing, found) ↦
            inr (
              sym (all-holds role perms plain) ∙ some_lack,
              rw (carried, plain, found) (refl, refl),
            )
      ]
    ]
