-- ===== src/Bootstrap/Process.antt =====
-- The process as `New` and `Shutdown` of internal/bootstrap/app.go see it: the world and the handles
-- that are open. A call of theirs takes the process, and gives a value or an error.
pub mod Handles
use go_with_me.Base.{ℕ, suc, String, Bool, true, false, List, [], ◌∷◌, ◌==◌, if◌then◌else◌}
use go_with_me.ApiError.{Error}
use go_with_me.Config.Load.{LoadError}
use go_with_me.World.{World}

pub record Process : Type 0 where
  pub world : World
  pub next : ℕ
  pub is_open : ℕ → Bool

-- The texts by which the errors are wrapped, as constructors.
pub data StartError : Type 0 where
  load_config : LoadError → StartError
  init_logger create_pool ping_database open_migrations migrate_up : StartError
  parse_redis_url ping_redis : StartError
  write_database connect_database run_migrations connect_redis : StartError → StartError
  read_database : ℕ → StartError → StartError
  bootstrap_admin : Error → StartError

pub data Outcome (A : Type 0) : Type 0 where
  started : A → Outcome A
  failed : StartError → Outcome A

abbrev pub Setup : Type 0 → Type 0
Setup A = Process → Outcome A × Process

abbrev pub give : {A : Type 0} → A → Setup A
give a p = (started a, p)

abbrev pub abort : {A : Type 0} → StartError → Setup A
abort e p = (failed e, p)

module _ {A B : Type 0} (on_error : StartError → Setup B) (next : A → Setup B) where
  abbrev pub after : Outcome A × Process → Outcome B × Process
  after (started a, p) = next a p
  after (failed e, p) = on_error e p

  -- `x, err := m; if err != nil { … }`, and then the rest.
  abbrev pub handled : Setup A → Setup B
  handled m p = after (m p)

infixl 5 ◌>>=◌ ◌>>◌
abbrev pub ◌>>=◌ : {A B : Type 0} → Setup A → (A → Setup B) → Setup B
m >>= f = handled abort f m

abbrev pub ◌>>◌ : {A B : Type 0} → Setup A → Setup B → Setup B
m >> k = m >>= λ _. k

-- A library call that may fail.
abbrev pub require : (Process → Bool) → StartError → Setup (Unit {0})
require test e p = if test p then (started tt, p) else (failed e, p)

abbrev pub set_at : (ℕ → Bool) → ℕ → Bool → ℕ → Bool
set_at f h b x = if x == h then b else f x

abbrev pub open_handle : Setup ℕ
open_handle p =
    (started p.next, record p { next = suc p.next; is_open = set_at p.is_open p.next true })

abbrev pub close : ℕ → Setup (Unit {0})
close h p = (started tt, record p { is_open = set_at p.is_open h false })

abbrev pub close_all : List ℕ → Setup (Unit {0})
close_all [] = give tt
close_all (h ∷ hs) = do close h; close_all hs
