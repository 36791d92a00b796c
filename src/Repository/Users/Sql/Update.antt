-- ===== src/Repository/Users/Sql/Update.antt =====
-- The statement of `Update`, as it is put together and run.
use go_with_me.Base.{
  ℕ, String, Bool, true, false, not, Option, none, some, List, [], ◌∷◌, ◌++◌, ◌≡◌, refl, all, find?,
  update_where, arith,
}
use go_with_me.Base.Text.{trim_space}
use go_with_me.ApiError.{plain, wrapped, no_rows}
use go_with_me.Models.{User}
use go_with_me.Models.Roles.{is_role}
use go_with_me.World.{World, Env, update_user}
use go_with_me.Action.{Action, gets, or_raise, map_error, query, modify, raise_if, ◌>>=◌, ◌>>◌}
use go_with_me.Repository.Sql.{
  Value, uuid, time, text, Building, nothing_built, with_clause, arg, enum_error,
}
use go_with_me.Repository.Users
use go_with_me.Repository.Users.{
  UpdateUserParams, has_id, find_by_id, not_found_on_no_rows, with_params, update_by_id, update_row,
  role_fits,
}
use go_with_me.Repository.Users.Rows.{row, scan_user, scan_user-row}

-- `name = $k`, `role = $k` and `updated_at = $k`.
pub data SetClause : Type 0 where
  set_name set_role set_updated_at : ℕ → SetClause

abbrev pub add_name : Option String → Building SetClause → Building SetClause
add_name none b = b
add_name (some name) b = with_clause set_name (text (trim_space name)) b

abbrev pub add_role : Option String → Building SetClause → Building SetClause
add_role none b = b
add_role (some role) b = with_clause set_role (text role) b

abbrev pub set_query : UpdateUserParams → Building SetClause
set_query p = add_role p.role (add_name p.name nothing_built)

-- How PostgreSQL reads a clause: a role that is none of the enum's values is an error.
abbrev pub clause_arg : SetClause → ℕ
clause_arg (set_name k) = k
clause_arg (set_role k) = k
clause_arg (set_updated_at k) = k

abbrev pub is_typed_by : Value → SetClause → Bool
is_typed_by (text s) (set_role k) = is_role s
is_typed_by (text s) (set_name k) = true
is_typed_by (time t) (set_updated_at k) = true
is_typed_by _ _ = false

abbrev pub is_typed : List Value → SetClause → Bool
is_typed args c = is_typed_by (arg args (clause_arg c)) c

abbrev pub set_by : Value → SetClause → User → User
set_by (text s) (set_name k) u = record u { name = s }
set_by (text s) (set_role k) u = record u { role = s }
set_by (time t) (set_updated_at k) u = record u { updated_at = t }
set_by _ c u = u

abbrev pub set_all : List Value → List SetClause → User → User
set_all args [] u = u
set_all args (c ∷ cs) u = set_all args cs (set_by (arg args (clause_arg c)) c u)

abbrev pub id_is : Value → User → Bool
id_is (uuid id) u = has_id id u
id_is _ u = false

abbrev pub row_of : Option User → Option (List Value)
row_of none = none
row_of (some u) = some (row u)

module _ (env : Env) where
  -- `where_at` is the number of the placeholder of `WHERE id = $k`.
  abbrev pub run_update : List SetClause → List Value → ℕ → Action (List Value)
  run_update clauses args where_at = query env update_user do
    raise_if (not (all (is_typed args) clauses)) enum_error
    modify (λ w. record w {
      users = update_where (id_is (arg args where_at)) (set_all args clauses) w.users;
    })
    found ← gets (λ w. row_of (find? (id_is (arg args where_at)) w.users))
    or_raise found no_rows

  abbrev pub run_built : ℕ → Building SetClause → Action User
  run_built id b = do
    returned ← run_update b.clauses (b.args ++ uuid id ∷ []) b.arg_idx
    or_raise (scan_user returned) (plain "scan")

  abbrev pub update_built : ℕ → Building SetClause → Action User
  update_built id b = do
    now ← gets (λ w. w.now)
    map_error (not_found_on_no_rows (wrapped "update user"))
        (run_built id (with_clause set_updated_at (time now) b))

  abbrev pub update_or_find : ℕ → Building SetClause → List SetClause → Action User
  update_or_find id b [] = find_by_id env id
  update_or_find id b (c ∷ cs) = update_built id b

  unfoldable pub update : ℕ → UpdateUserParams → Action User
  update id p = let b = set_query p in update_or_find id b b.clauses

  -- The returned row, read back.
  scan_row_of :
      (o : Option User) (w : World)
      → (do found ← or_raise (row_of o) no_rows; or_raise (scan_user found) (plain "scan")) w
        ≡ or_raise o no_rows w
  scan_row_of none w = refl
  scan_row_of (some u) w = rw (scan_user-row u) refl

  -- What the clauses have to be.
  record Fits (p : UpdateUserParams) (now id : ℕ) (clauses : List SetClause) (args : List Value)
      (at : ℕ) : Type 0 where
    typed : all (is_typed args) clauses ≡ role_fits p.role
    same : (u : User) → set_all args clauses u ≡ with_params p now u
    where_id : arg args at ≡ uuid id

  run_built-update_row :
      (id : ℕ) (p : UpdateUserParams) (b : Building SetClause) (w : World)
      → Fits p w.now id b.clauses (b.args ++ uuid id ∷ []) b.arg_idx
      → run_built id b w ≡ update_row env id p w
  unfolding update_row
  run_built-update_row id p b w fits =
      let f : User → User = set_all (b.args ++ uuid id ∷ []) b.clauses in
      let same : f ≡ with_params p w.now = λ i u. fits.same u i in
      let updated : World = update_by_id id (with_params p w.now) w in
      rw (same, fits.typed, fits.where_id)
        (ground (arith, scan_row_of (find? (has_id id) updated.users) updated))

  abbrev given : Option String → Option String → UpdateUserParams
  given name role = record { name = name; role = role }

  abbrev stamped : UpdateUserParams → ℕ → Building SetClause
  stamped p now = with_clause set_updated_at (time now) (set_query p)

  built :
      (id : ℕ) (name role : Option String) (w : World)
      → update id (given name role) w ≡ Users.update env id (given name role) w
  unfolding update Users.update
  built id none none w = refl
  built id (some name) none w =
      let p = given (some name) none in
      rw
        (run_built-update_row id p (stamped p w.now) w
          (record { typed = refl; same = λ u. refl; where_id = refl }))
        refl
  built id none (some role) w =
      let p = given none (some role) in
      rw
        (run_built-update_row id p (stamped p w.now) w
          (record { typed = ground arith; same = λ u. refl; where_id = refl }))
        refl
  built id (some name) (some role) w =
      let p = given (some name) (some role) in
      rw
        (run_built-update_row id p (stamped p w.now) w
          (record { typed = ground arith; same = λ u. refl; where_id = refl }))
        refl

  -- The statement that `Update` puts together, with its numbered placeholders and the scan of the row
  -- that it returns, updates the row as the repository's update does: the name and the role that are
  -- given, and the time. Whatever the database does, the two answer and write the same.
  pub update_sql :
      (id : ℕ) (p : UpdateUserParams) (w : World) → update id p w ≡ Users.update env id p w
  update_sql id p w = built id p.name p.role w
