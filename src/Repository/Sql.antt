-- ===== src/Repository/Sql.antt =====
-- Statements that internal/repository/implementation puts together: clauses with numbered placeholders
-- and the arguments of these, and the values of rows.
pub mod Paging
use go_with_me.Base.{
  ℕ, ◌+◌, ◌-◌, String, Bool, Option, none, some, List, [], ◌∷◌, ◌++◌, get_elem?, ◌≡◌, refl,
}
use go_with_me.ApiError.{Error, plain}

pub data Value : Type 0 where
  null : Value
  uuid int time : ℕ → Value
  text json : String → Value
  bool : Bool → Value

-- What `Scan` writes to a `*string`, to a `*time.Time` and to a `*uuid.UUID`.
abbrev pub text_or_null : Value → Option (Option String)
text_or_null null = some none
text_or_null (text s) = some (some s)
text_or_null _ = none

abbrev pub time_or_null : Value → Option (Option ℕ)
time_or_null null = some none
time_or_null (time t) = some (some t)
time_or_null _ = none

abbrev pub uuid_or_null : Value → Option (Option ℕ)
uuid_or_null null = some none
uuid_or_null (uuid n) = some (some n)
uuid_or_null _ = none

abbrev pub nullable : {A : Type 0} → (A → Value) → Option A → Value
nullable f none = null
nullable f (some a) = f a

-- `conditions`, or `setClauses`, with `args` and `argIdx`.
pub record Building (C : Type 0) : Type 0 where
  pub clauses : List C
  pub args : List Value
  pub arg_idx : ℕ

abbrev pub nothing_built : {C : Type 0} → Building C
nothing_built = record { clauses = []; args = []; arg_idx = 1 }

-- `append(clauses, fmt.Sprintf(…, argIdx))`, `append(args, …)` and `argIdx++`.
abbrev pub with_clause : {C : Type 0} → (ℕ → C) → Value → Building C → Building C
with_clause clause value b = record {
  clauses = b.clauses ++ clause b.arg_idx ∷ [];
  args = b.args ++ value ∷ [];
  arg_idx = b.arg_idx + 1;
}

-- The argument of `$k`.
abbrev pub arg : List Value → ℕ → Value
arg args k = or_null (get_elem? args (k - 1))
  where
    or_null : Option Value → Value
    or_null none = null
    or_null (some v) = v

abbrev pub int_arg : List Value → ℕ → ℕ
int_arg args k = number (arg args k)
  where
    number : Value → ℕ
    number (int n) = n
    number _ = 0

-- What PostgreSQL says of an argument that is none of an enum's values.
abbrev pub enum_error : Error
enum_error = plain "invalid input value for enum user_role"

-- A nullable column is read back.
pub text_or_null-nullable : (o : Option String) → text_or_null (nullable text o) ≡ some o
text_or_null-nullable none = refl
text_or_null-nullable (some s) = refl

pub time_or_null-nullable : (o : Option ℕ) → time_or_null (nullable time o) ≡ some o
time_or_null-nullable none = refl
time_or_null-nullable (some t) = refl

pub uuid_or_null-nullable : (o : Option ℕ) → uuid_or_null (nullable uuid o) ≡ some o
uuid_or_null-nullable none = refl
uuid_or_null-nullable (some n) = refl
