-- ===== src/Models/Roles.antt =====
-- internal/models/user.go: the roles and their permissions.
use go_with_me.Base.{String, Bool, ◌||◌, List, [], ◌∷◌, any, ◌=ₛ◌, if◌then◌else◌}

abbrev pub role_super_admin : String
role_super_admin = "super_admin"

abbrev pub role_admin : String
role_admin = "admin"

abbrev pub role_manager : String
role_manager = "manager"

abbrev pub role_member : String
role_member = "member"

abbrev pub role_viewer : String
role_viewer = "viewer"

unfoldable pub role_permissions : String → List String
role_permissions role =
    if role =ₛ role_super_admin
    then "*" ∷ []
    else if role =ₛ role_admin
    then "users:read" ∷ "users:write" ∷ "users:invite" ∷ "audit:read" ∷ []
    else if role =ₛ role_manager
    then "users:read" ∷ "users:invite" ∷ []
    else if role =ₛ role_member
    then "profile:read" ∷ "profile:write" ∷ []
    else if role =ₛ role_viewer
    then "profile:read" ∷ []
    else []

-- `User.HasPermission`, for a user of this role.
unfoldable pub has_permission : String → String → Bool
has_permission role perm = any (λ p. p =ₛ "*" || p =ₛ perm) (role_permissions role)

-- The values of the column type `user_role` (migrations/001_enums.sql).
abbrev pub is_role : String → Bool
is_role role =
    any (λ r. role =ₛ r)
      (role_super_admin ∷ role_admin ∷ role_manager ∷ role_member ∷ role_viewer ∷ [])
