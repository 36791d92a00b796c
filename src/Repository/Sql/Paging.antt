-- ===== src/Repository/Sql/Paging.antt =====
-- The two `List` of internal/repository/implementation have one shape: count the rows that meet the
-- conditions, select a page of them, and scan each row.
use go_with_me.Base.{
  ℕ, ◌+◌, ◌^◌, String, Bool, not, Option, some, List, [], ◌∷◌, ◌++◌, ◌≡◌, refl, leb, count, keep,
  take, drop, map, all, arith,
}
use go_with_me.ApiError.{plain}
use go_with_me.World.{World, Env, Statement}
use go_with_me.Action.{Action, ok, pure, gets, or_raise, wrap, query, raise_if, ◌>>=◌, ◌>>◌}
use go_with_me.Pagination.{Params, offset}
use go_with_me.Repository.Newest.{newest_first}
use go_with_me.Repository.Sql.{Value, int, Building, int_arg, enum_error}

-- A table that is listed: its rows of type `A`, and conditions `C` on them.
pub record Listable (A C : Type 0) : Type 0 where
  pub rows : World → List A
  pub created_at : A → ℕ
  -- whether PostgreSQL takes a condition with these arguments, and what it means
  pub is_typed : List Value → C → Bool
  pub holds : List Value → A → C → Bool
  -- the columns of a row, and what they are scanned as
  pub row : A → List Value
  pub scan : List Value → Option A
  pub scan-row : (a : A) → scan (row a) ≡ some a
  pub counts : Statement
  pub lists : Statement
  pub count_failed : String
  pub list_failed : String
  pub scan_failed : String

abbrev pub paged : {C : Type 0} → Params → Building C → List Value
paged params b = b.args ++ int params.page_size ∷ int (offset params) ∷ []

module _ (env : Env) {A C : Type 0} (t : Listable A C) where
  -- The rows that `rows.Next()` goes through.
  abbrev pub scan_rows : List (List Value) → Action (List A)
  scan_rows [] = pure []
  scan_rows (r ∷ rs) = do
    a ← wrap t.scan_failed (or_raise (t.scan r) (plain "scan"))
    found ← scan_rows rs
    pure (a ∷ found)

  abbrev pub run_count : List C → List Value → Action ℕ
  run_count conditions args = query env t.counts do
    raise_if (not (all (t.is_typed args) conditions)) enum_error
    gets (λ w. count (λ a. all (t.holds args a) conditions) (t.rows w))

  -- `limit` and `offset_at` are the numbers of their placeholders.
  abbrev pub run_list : List C → List Value → ℕ → ℕ → Action (List (List Value))
  run_list conditions args limit offset_at = query env t.lists do
    raise_if (not (all (t.is_typed args) conditions)) enum_error
    raise_if (leb (2 ^ 63) (int_arg args offset_at)) (plain "OFFSET must not be negative")
    gets (λ w. map t.row (
        take (int_arg args limit) (
          drop (int_arg args offset_at)
            (newest_first t.created_at (keep (λ a. all (t.holds args a) conditions) (t.rows w))))))

  abbrev pub run_built : Params → Building C → Action (List A × ℕ)
  run_built params b = do
    total ← wrap t.count_failed (run_count b.clauses b.args)
    rows ← wrap t.list_failed (run_list b.clauses (paged params b) b.arg_idx (b.arg_idx + 1))
    found ← scan_rows rows
    pure (found, total)

  -- What is promised: the page of the rows that meet a test, and their number.
  abbrev pub promised : Bool → (A → Bool) → Params → Action (List A × ℕ)
  promised fits is_listed params = do
    total ← wrap t.count_failed (
        query env t.counts
          do raise_if (not fits) enum_error; gets (λ w. count is_listed (t.rows w)))
    found ← wrap t.list_failed (
        query env t.lists do
          raise_if (not fits) enum_error
          raise_if (leb (2 ^ 63) (offset params)) (plain "OFFSET must not be negative")
          gets (λ w.
              take params.page_size
                (drop (offset params) (newest_first t.created_at (keep is_listed (t.rows w))))))
    pure (found, total)

  -- The conditions say whether the arguments fit, and what is listed.
  pub record IsBuilt (fits : Bool) (is_listed : A → Bool) (clauses : List C) (args : List Value)
      : Type 0 where
    pub typed : all (t.is_typed args) clauses ≡ fits
    pub same : (a : A) → all (t.holds args a) clauses ≡ is_listed a

  -- With the arguments of the page behind their own too, which are the next two.
  pub record Fits (fits : Bool) (is_listed : A → Bool) (params : Params) (b : Building C)
      : Type 0 where
    pub counted : IsBuilt fits is_listed b.clauses b.args
    pub listed : IsBuilt fits is_listed b.clauses (paged params b)
    pub limit : int_arg (paged params b) b.arg_idx ≡ params.page_size
    pub from : int_arg (paged params b) (b.arg_idx + 1) ≡ offset params

  scan_rows-row : (found : List A) (w : World) → scan_rows (map t.row found) w ≡ (ok found, w)
  scan_rows-row [] w = refl
  scan_rows-row (a ∷ found) w = rw (t.scan-row a, scan_rows-row found w) refl

  pub run_built-promised :
      (fits : Bool) (is_listed : A → Bool) (params : Params) (b : Building C) (w : World)
      → Fits fits is_listed params b
      → run_built params b w ≡ promised fits is_listed params w
  run_built-promised fits is_listed params b w built =
      let count_same : (λ (a : A). all (t.holds b.args a) b.clauses) ≡ is_listed =
        λ i a. built.counted.same a i in
      let list_same : (λ (a : A). all (t.holds (paged params b) a) b.clauses) ≡ is_listed =
        λ i a. built.listed.same a i in
      let page =
        take params.page_size
          (drop (offset params) (newest_first t.created_at (keep is_listed (t.rows w)))) in
      rw (count_same, list_same, built.limit, built.from, built.counted.typed, built.listed.typed)
        (ground (arith, scan_rows-row page w))
