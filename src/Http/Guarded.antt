-- ===== src/Http/Guarded.antt =====
-- Who gets past the middleware of the routes.
use go_with_me.Base.{
  ℕ, String, true, ◌&&◌, Option, none, some, List, [], ◌∷◌, ◌≡◌, refl, sym, ◌∙◌, arith, ◌⊎◌, inl,
  inr, any, ◌=ₛ◌, =ₛ_iff, Option-cases, Bool-cases,
}
use go_with_me.Claims.{
  Claims, purpose_session, purpose_mfa, purpose_totp_setup, purpose_password_reset,
}
use go_with_me.Models.Roles.{role_super_admin, role_admin, role_manager}
use go_with_me.World.{World, Env}
use go_with_me.Token.{parse_at}
use go_with_me.Http.{HttpRequest, Identity, Handler, Response, status, nobody}
use go_with_me.Http.Auth.{extract_bearer, require_purpose, admit, identity_of}
use go_with_me.Http.Roles.{require_role}
use go_with_me.Http.RequestId.{identified}
use go_with_me.Http.Routes.{
  Route, Server, handle, health, ready, login, forgot_password, verify_reset_email, accept_invite,
  verify_totp, setup_totp, confirm_totp, complete_password_reset, me, list_users, get_user,
  update_user, invite_user, deactivate_user,
}

-- Answered with this status, and nothing is written.
abbrev pub IsRefusal : ℕ → World → Response × World → Type 0
IsRefusal code w (answer, w') = (status answer ≡ code) × (w' ≡ w)

module _ (env : Env) (secret : String) where
  -- The bearer token of the request has these claims.
  abbrev pub Bears : HttpRequest → World → Claims → Type 0
  Bears r w c = parse_at env w.now (extract_bearer r) secret ≡ some c

  admit_lem :
      (expected : String) (c : Claims) (next : Handler) (r : HttpRequest) (i : Identity) (w : World)
      → IsRefusal 401 w (admit expected (some c) next r i w)
        ⊎ ((c.purpose ≡ expected) × (admit expected (some c) next r i w ≡ next r (identity_of c) w))
  admit_lem expected c next r i w = elim (Bool-cases (c.purpose =ₛ expected)) [
    | inr differs ↦ inl (ground arith)
    | inl same ↦ elim (Bool-cases (expected =ₛ purpose_session && c.role =ₛ "")) [
      | inl no_role ↦ inl (ground arith)
      | inr role ↦ inr ((=ₛ_iff c.purpose expected).0 same, ground arith)
    ]
  ]

  -- A handler behind `require_purpose` runs only for a token of this purpose, with the identity of the
  -- token's claims.
  pub require_purpose_lem :
      (expected : String) (next : Handler) (r : HttpRequest) (i : Identity) (w : World)
      → IsRefusal 401 w (require_purpose env secret expected next r i w)
        ⊎ ((c : Claims) × Bears r w c
            × (c.purpose ≡ expected)
            × (require_purpose env secret expected next r i w ≡ next r (identity_of c) w))
  unfolding require_purpose
  require_purpose_lem expected next r i w = elim (Bool-cases (extract_bearer r =ₛ "")) [
    | inl missing ↦ inl (rw missing (refl, refl))
    | inr present ↦ elim (Option-cases (parse_at env w.now (extract_bearer r) secret)) [
      | inl unparsed ↦ inl (rw (present, unparsed) (refl, refl))
      | inr (c, parsed) ↦ elim (admit_lem expected c next r i w) [
        | inl refused ↦ inl (rw (present, parsed) refused)
        | inr (purpose, runs) ↦ inr (c, parsed, purpose, rw (present, parsed) runs)
      ]
    ]
  ]

-- The roles that a route of /api/v1 is for, by the table of the documentation of its API.
abbrev pub allowed_roles : Route → Option (List String)
allowed_roles list_users = some (role_admin ∷ role_super_admin ∷ [])
allowed_roles get_user = some (role_super_admin ∷ role_admin ∷ role_manager ∷ [])
allowed_roles update_user = some (role_admin ∷ role_super_admin ∷ [])
allowed_roles invite_user = some (role_admin ∷ role_super_admin ∷ [])
allowed_roles deactivate_user = some (role_super_admin ∷ [])
allowed_roles _ = none

-- The purpose that a route of /auth asks of its token.
abbrev pub required_purpose : Route → Option String
required_purpose verify_totp = some purpose_mfa
required_purpose setup_totp = some purpose_totp_setup
required_purpose confirm_totp = some purpose_totp_setup
required_purpose complete_password_reset = some purpose_password_reset
required_purpose me = some purpose_session
required_purpose _ = none

module _ (s : Server) where
  abbrev pub Carries : HttpRequest → World → Claims → Type 0
  Carries = Bears s.env s.cfg.app_secret

  -- The request carries a session of one of these roles.
  abbrev pub IsAllowed : List String → HttpRequest → World → Type 0
  IsAllowed roles r w =
      (c : Claims) × Carries r w c
      × (c.purpose ≡ purpose_session)
      × (any (λ role. role =ₛ c.role) roles ≡ true)

  guarded :
      (roles : List String) (next : Handler) (r : HttpRequest) (i : Identity) (w : World)
      → let answer =
          require_purpose s.env s.cfg.app_secret purpose_session (require_role roles next) r i w in
        IsRefusal 401 w answer ⊎ (IsRefusal 403 w answer ⊎ IsAllowed roles r w)
  unfolding require_role
  guarded roles next r i w =
      elim (require_purpose_lem s.env s.cfg.app_secret purpose_session (require_role roles next) r i
        w) [
          | inl refused ↦ inl refused
          | inr (c, parsed, purpose, runs) ↦
              elim (Bool-cases (any (λ role. role =ₛ c.role) roles)) [
                | inl allowed ↦ inr (inr (c, parsed, purpose, allowed))
                | inr denied ↦ inr (inl (rw (runs, denied) (refl, refl)))
              ]
        ]

  guarded_for :
      {own : List String} (roles : List String) (next : Handler) (r : HttpRequest) (w : World)
      → some own ≡ some roles
      → let answer =
          require_purpose s.env s.cfg.app_secret purpose_session
            (require_role own next)
            r
            nobody
            w in
        IsRefusal 401 w answer ⊎ (IsRefusal 403 w answer ⊎ IsAllowed roles r w)
  guarded_for {own} roles next r w e =
      let same : roles ≡ own = cc in rw same (guarded own next r nobody w)

  purpose_for :
      {own : String} (purpose : String) (next : Handler) (r : HttpRequest) (w : World)
      → some own ≡ some purpose
      → IsRefusal 401 w (require_purpose s.env s.cfg.app_secret own next r nobody w)
        ⊎ ((c : Claims) × Carries r w c × (c.purpose ≡ purpose))
  purpose_for {own} purpose next r w e =
      let same : purpose ≡ own = cc in
      elim (require_purpose_lem s.env s.cfg.app_secret own next r nobody w) [
        | inl refused ↦ inl refused
        | inr (c, parsed, right, runs) ↦ inr (c, parsed, right ∙ sym same)
      ]

  -- A route of /api/v1 refuses with 401 or 403 and writes nothing, unless the request carries a session
  -- of one of the roles that the route is for.
  pub role_guard :
      (route : Route) (roles : List String) (r : HttpRequest) (w : World)
      → allowed_roles route ≡ some roles
      → IsRefusal 401 w (handle s route r w)
        ⊎ (IsRefusal 403 w (handle s route r w) ⊎ IsAllowed roles r w)
  unfolding handle extract_bearer
  role_guard list_users roles r w allowed = guarded_for roles _ (identified s.env w r) w allowed
  role_guard get_user roles r w allowed = guarded_for roles _ (identified s.env w r) w allowed
  role_guard update_user roles r w allowed = guarded_for roles _ (identified s.env w r) w allowed
  role_guard invite_user roles r w allowed = guarded_for roles _ (identified s.env w r) w allowed
  role_guard deactivate_user roles r w allowed =
      guarded_for roles _ (identified s.env w r) w allowed
  role_guard health roles r w allowed = cc
  role_guard ready roles r w allowed = cc
  role_guard login roles r w allowed = cc
  role_guard forgot_password roles r w allowed = cc
  role_guard verify_reset_email roles r w allowed = cc
  role_guard accept_invite roles r w allowed = cc
  role_guard verify_totp roles r w allowed = cc
  role_guard setup_totp roles r w allowed = cc
  role_guard confirm_totp roles r w allowed = cc
  role_guard complete_password_reset roles r w allowed = cc
  role_guard me roles r w allowed = cc

  -- A route of /auth that asks for a token answers 401 and writes nothing, unless the request carries a
  -- token of the purpose that the route is for.
  pub purpose_guard :
      (route : Route) (purpose : String) (r : HttpRequest) (w : World)
      → required_purpose route ≡ some purpose
      → IsRefusal 401 w (handle s route r w)
        ⊎ ((c : Claims) × Carries r w c × (c.purpose ≡ purpose))
  unfolding handle extract_bearer
  purpose_guard verify_totp purpose r w asked = purpose_for purpose _ (identified s.env w r) w asked
  purpose_guard setup_totp purpose r w asked = purpose_for purpose _ (identified s.env w r) w asked
  purpose_guard confirm_totp purpose r w asked =
      purpose_for purpose _ (identified s.env w r) w asked
  purpose_guard complete_password_reset purpose r w asked =
      purpose_for purpose _ (identified s.env w r) w asked
  purpose_guard me purpose r w asked = purpose_for purpose _ (identified s.env w r) w asked
  purpose_guard health purpose r w asked = cc
  purpose_guard ready purpose r w asked = cc
  purpose_guard login purpose r w asked = cc
  purpose_guard forgot_password purpose r w asked = cc
  purpose_guard verify_reset_email purpose r w asked = cc
  purpose_guard accept_invite purpose r w asked = cc
  purpose_guard list_users purpose r w asked = cc
  purpose_guard get_user purpose r w asked = cc
  purpose_guard update_user purpose r w asked = cc
  purpose_guard invite_user purpose r w asked = cc
  purpose_guard deactivate_user purpose r w asked = cc
