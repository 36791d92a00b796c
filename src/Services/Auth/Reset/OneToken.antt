-- ===== src/Services/Auth/Reset/OneToken.antt =====
-- Any number of callers of `VerifyResetEmail`, interleaved in any order.
use go_with_me.Base.{
  ℕ, String, Bool, true, false, List, ◌≡◌, refl, ap, sym, ◌∙◌, arith, any, keep, ◌==◌, ==_iff,
  if◌then◌else◌, ◌≢◌, ◌∷◌, Bool-cases, inl, inr,
}
use go_with_me.ApiError.{Error}
use go_with_me.Models.{User, PasswordReset}
use go_with_me.World.{World, Env}
use go_with_me.Action.{Action, Result, ok, err}
use go_with_me.Action.Keeps.{Keeps, keeps_rules}
use go_with_me.Repository.Users
use go_with_me.Repository.Resets
use go_with_me.Services.Auth.{AuthService}
use go_with_me.Services.Auth.Reset.{use_reset}
use go_with_me.Services.Auth.Reset.AtOnce.{
  is_open_reset, IsUsedUp, keep-used, look_up, use_reset-Keeps, was_open, uses_up,
}

-- Where a caller stands: before its look-up, with the user and the reset that it has found, and at its
-- end, with an error or with the reset that it has used and the token.
pub data Stage : Type 0 where
  calling : Stage
  holding : User → PasswordReset → Stage
  refused : Error → Stage
  answered : PasswordReset → String → Stage

abbrev pub is_answered : Stage → Bool
is_answered calling = false
is_answered (holding _ _) = false
is_answered (refused _) = false
is_answered (answered _ _) = true

pub record Callers : Type 0 where
  pub world : World
  pub stage : ℕ → Stage

abbrev pub set_stage : (ℕ → Stage) → ℕ → Stage → ℕ → Stage
set_stage stage i p j = if j == i then p else stage j

module _ (env : Env) (s : AuthService) (email otp : ℕ → String) where
  pub data Step (t u : Callers) : Type 0 where
    finds :
        (i : ℕ) (v : User) (r : PasswordReset) (w : World)
        → t.stage i ≡ calling
        → look_up env s (email i) (otp i) t.world ≡ (ok (v, r), w)
        → u ≡ record { world = w; stage = set_stage t.stage i (holding v r) }
        → Step t u
    misses :
        (i : ℕ) (e : Error) (w : World)
        → t.stage i ≡ calling
        → look_up env s (email i) (otp i) t.world ≡ (err e, w)
        → u ≡ record { world = w; stage = set_stage t.stage i (refused e) }
        → Step t u
    uses :
        (i : ℕ) (v : User) (r : PasswordReset) (token : String) (w : World)
        → t.stage i ≡ holding v r
        → use_reset env s (otp i) v r t.world ≡ (ok token, w)
        → u ≡ record { world = w; stage = set_stage t.stage i (answered r token) }
        → Step t u
    fails :
        (i : ℕ) (v : User) (r : PasswordReset) (e : Error) (w : World)
        → t.stage i ≡ holding v r
        → use_reset env s (otp i) v r t.world ≡ (err e, w)
        → u ≡ record { world = w; stage = set_stage t.stage i (refused e) }
        → Step t u
    -- time passes, and other calls write other tables or delete resets
    other :
        (w : World) (p : PasswordReset → Bool)
        → w.resets ≡ keep p t.world.resets
        → u ≡ record t { world = w }
        → Step t u
    -- `ForgotPassword` writes a new reset, with an id that no reset used so far has
    renews :
        (w : World) (p : PasswordReset → Bool) (new : PasswordReset)
        → w.resets ≡ new ∷ keep p t.world.resets
        → ((i : ℕ) (r : PasswordReset) (token : String)
            → t.stage i ≡ answered r token
            → new.id ≢ r.id)
        → u ≡ record t { world = w }
        → Step t u

  pub data Reach (w : World) : Callers → Type 0 where
    start : Reach w (record { world = w; stage = λ i. calling })
    later : {t u : Callers} → Reach w t → Step t u → Reach w u

  -- A reset that was used stays used, and was used by one caller.
  record Inv (t : Callers) : Type 0 where
    used :
        (i : ℕ) (r : PasswordReset) (token : String)
        → t.stage i ≡ answered r token
        → IsUsedUp r.id t.world
    apart :
        (i j : ℕ) (r r' : PasswordReset) (token token' : String)
        → t.stage i ≡ answered r token
        → t.stage j ≡ answered r' token'
        → r.id ≡ r'.id
        → i ≡ j

  look_up-Keeps :
      (id : ℕ) (address code : String) → Keeps (IsUsedUp id) (look_up env s address code)
  unfolding look_up Users.find_by_email Resets.find_by_user_id
  look_up-Keeps id address code = search keeps_rules depth 14

  -- An answer in the new state is one in the old.
  before :
      (stage : ℕ → Stage) (i j : ℕ) (p : Stage) (r : PasswordReset) (token : String)
      → is_answered p ≡ false
      → set_stage stage i p j ≡ answered r token
      → stage j ≡ answered r token
  before stage i j p r token quiet h = elim (Bool-cases (j == i)) [
    | inl same ↦ absurd (ground arith)
    | inr differs ↦ ground arith
  ]

  moved-Inv :
      (t : Callers) (i : ℕ) (p : Stage) (w : World)
      → is_answered p ≡ false
      → ((id : ℕ) → IsUsedUp id t.world → IsUsedUp id w)
      → Inv t
      → Inv (record { world = w; stage = set_stage t.stage i p })
  moved-Inv t i p w quiet keeps inv = record {
    used = λ j r token h. keeps r.id (inv.used j r token (before t.stage i j p r token quiet h));
    apart = λ j k r r' token token' h h' same.
        inv.apart j k r r' token token' (before t.stage i j p r token quiet h)
          (before t.stage i k p r' token' quiet h') same;
  }

  other-Inv :
      (t : Callers) (w : World)
      → ((i : ℕ) (r : PasswordReset) (token : String)
          → t.stage i ≡ answered r token
          → IsUsedUp r.id t.world
          → IsUsedUp r.id w)
      → Inv t
      → Inv (record t { world = w })
  other-Inv t w keeps inv = record {
    used = λ i r token h. keeps i r token h (inv.used i r token h);
    apart = inv.apart;
  }

  -- Who has an answer in the new state is the caller that moved, or had it before.
  data Answered (stage : ℕ → Stage) (i j : ℕ) (r r' : PasswordReset) (token token' : String)
      : Type 0 where
    now : j ≡ i → r.id ≡ r'.id → Answered stage i j r r' token token'
    earlier : stage j ≡ answered r' token' → Answered stage i j r r' token token'

  answers :
      (stage : ℕ → Stage) (i j : ℕ) (r r' : PasswordReset) (token token' : String)
      → set_stage stage i (answered r token) j ≡ answered r' token'
      → Answered stage i j r r' token token'
  answers stage i j r r' token token' h = elim (Bool-cases (j == i)) [
    | inl same ↦ now (ground (arith, ==_iff j i)) (ground arith)
    | inr differs ↦ earlier (ground arith)
  ]

  uses-Inv :
      (t : Callers) (i : ℕ) (v : User) (r : PasswordReset) (token : String) (w : World)
      → use_reset env s (otp i) v r t.world ≡ (ok token, w)
      → Inv t
      → Inv (record { world = w; stage = set_stage t.stage i (answered r token) })
  uses-Inv t i v r token w run inv = record {
    used = λ j x token' h. elim (answers t.stage i j r x token token' h) [
      | now same id ↦ rw⁻¹ id (uses_up env s (otp i) v r t.world run)
      | earlier h' ↦ kept x.id (inv.used j x token' h')
    ];
    apart = λ j k x y token' token'' h h' id. elim (answers t.stage i j r x token token' h) [
      | now same new ↦ elim (answers t.stage i k r y token token'' h') [
        | now same' new' ↦ same ∙ sym same'
        | earlier old ↦ absurd (still_open y.id (new ∙ id) (inv.used k y token'' old))
      ]
      | earlier old ↦ elim (answers t.stage i k r y token token'' h') [
        | now same' new' ↦ absurd (still_open x.id (new' ∙ sym id) (inv.used j x token' old))
        | earlier old' ↦ inv.apart j k x y token' token'' old old' id
      ]
    ];
  }
    where
      kept : (id : ℕ) → IsUsedUp id t.world → IsUsedUp id w
      kept id h = rw⁻¹ (ap (λ q. q.1) run) ((use_reset-Keeps env s id (otp i) v r).at t.world h)

      still_open : (id : ℕ) → r.id ≡ id → IsUsedUp id t.world → ⊥
      still_open id same h = cc (was_open env s (otp i) v r t.world run, h, ap is_open_reset same)

  -- What a call leaves is kept where it stops before an answer.
  kept_by :
      {A : Type 0} {m : Action A} {r : Result A}
      → ((id : ℕ) → Keeps (IsUsedUp id) m)
      → (w v : World) → m w ≡ (r, v)
      → (id : ℕ) → IsUsedUp id w
      → IsUsedUp id v
  kept_by keeps w v run id h = rw⁻¹ (ap (λ q. q.1) run) ((keeps id).at w h)

  renew-used :
      (id : ℕ) (p : PasswordReset → Bool) (new : PasswordReset) (rs : List PasswordReset)
      → new.id ≢ id
      → any (is_open_reset id) rs ≡ false
      → any (is_open_reset id) (new ∷ keep p rs) ≡ false
  renew-used id p new rs fresh h = ground (arith, keep-used id p rs h, ==_iff new.id id)

  Step-Inv : (t u : Callers) → Step t u → Inv t → Inv u
  Step-Inv t u (finds i v r w stage run next) inv = rw next (
      moved-Inv t i (holding v r) w refl
        (kept_by (λ id. look_up-Keeps id (email i) (otp i)) t.world w run) inv)
  Step-Inv t u (misses i e w stage run next) inv = rw next (
      moved-Inv t i (refused e) w refl
        (kept_by (λ id. look_up-Keeps id (email i) (otp i)) t.world w run) inv)
  Step-Inv t u (uses i v r token w stage run next) inv = rw next (uses-Inv t i v r token w run inv)
  Step-Inv t u (fails i v r e w stage run next) inv = rw next (
      moved-Inv t i (refused e) w refl
        (kept_by (λ id. use_reset-Keeps env s id (otp i) v r) t.world w run) inv)
  Step-Inv t u (other w p rows next) inv =
      rw next (other-Inv t w (λ i r token at h. rw rows (keep-used r.id p t.world.resets h)) inv)
  Step-Inv t u (renews w p new rows fresh next) inv = rw next (
      other-Inv t w
        (λ i r token at h. rw rows (renew-used r.id p new t.world.resets (fresh i r token at) h))
        inv)

  Reach-Inv : (w : World) (t : Callers) → Reach w t → Inv t
  Reach-Inv w t start = record {
    used = λ i r token h. absurd cc;
    apart = λ i j r r' token token' h. absurd cc;
  }
  Reach-Inv w u (later {t} before step) = Step-Inv t u step (Reach-Inv w t before)

  -- However calls of `VerifyResetEmail` run at once, a reset gives one token: where one caller has been
  -- answered for a reset, no other caller is answered for a reset of its id. Between a caller's finding
  -- a reset and its using it, other callers may take any steps, time may pass, resets may be deleted,
  -- and others with ids of their own be written.
  pub one_token :
      {w : World} {t : Callers} {i j : ℕ} {r r' : PasswordReset} {token token' : String}
      → Reach w t
      → i ≢ j
      → t.stage i ≡ answered r token
      → r.id ≡ r'.id
      → t.stage j ≢ answered r' token'
  one_token {w} {t} {i} {j} {r} {r'} {token} {token'} reached differ h same h' =
      differ ((Reach-Inv w t reached).apart i j r r' token token' h h' same)
