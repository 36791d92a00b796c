-- ===== src/Bootstrap/Process/Handles.antt =====
-- Which handles a call of `Setup` opens and closes, and a rule for a chain of calls.
use go_with_me.Base.{
  ℕ, ◌≤◌, ◌<◌, Bool, true, false, not, ◌&&◌, ◌||◌, List, [], ◌∷◌, ◌++◌, ◌≡◌, refl, arith, ◌==◌, any,
  Bool-cases, inl, inr,
}
use go_with_me.Bootstrap.Process.{
  Process, StartError, Outcome, started, failed, Setup, after, abort, give, open_handle, close,
  close_all,
}

-- No handle is open that has not been made.
abbrev pub IsFresh : Process → Type 0
IsFresh p = (x : ℕ) → p.next ≤ x → p.is_open x ≡ false

-- Of the handles made since `p`, those of `held` are open, and the others are as they were.
pub record Holds (held : ℕ → Bool) (p q : Process) : Type 0 where
  pub opened : (x : ℕ) → q.is_open x ≡ (held x || p.is_open x)
  pub range : (x : ℕ) → held x ≡ true → (p.next ≤ x) × (x < q.next)
  pub later : p.next ≤ q.next

abbrev pub nothing : ℕ → Bool
nothing x = false

abbrev pub plus : ℕ → (ℕ → Bool) → ℕ → Bool
plus h held x = x == h || held x

abbrev pub among : List ℕ → ℕ → Bool
among hs x = any (λ h. x == h) hs

abbrev pub minus : List ℕ → (ℕ → Bool) → ℕ → Bool
minus hs held x = not (among hs x) && held x

-- A call ends in a process with `S`, or with `F` if it fails.
abbrev pub Ends :
    {A : Type 0}
    → (StartError → Process → Type 0)
    → (A → Process → Type 0)
    → Outcome A × Process
    → Type 0
Ends F S (started a, q) = S a q
Ends F S (failed e, q) = F e q

-- The rule for `x, err := m; if err != nil { … }` and what follows.
pub Ends-after :
    {A B : Type 0} (F : StartError → Process → Type 0) (S : A → Process → Type 0)
    (F' : StartError → Process → Type 0) (S' : B → Process → Type 0)
    (on_error : StartError → Setup B) (next : A → Setup B) (r : Outcome A × Process)
    → Ends F S r
    → ((e : StartError) (q : Process) → F e q → Ends F' S' (on_error e q))
    → ((a : A) (q : Process) → S a q → Ends F' S' (next a q))
    → Ends F' S' (after on_error next r)
Ends-after F S F' S' on_error next (started a, q) h bad good = good a q h
Ends-after F S F' S' on_error next (failed e, q) h bad good = bad e q h

-- The same, where what handles an error ends the start.
pub Ends-step :
    {A B : Type 0} (F : StartError → Process → Type 0) (S : A → Process → Type 0)
    (F' : StartError → Process → Type 0) (S' : B → Process → Type 0)
    (on_error : StartError → Setup A) (rest : A → Setup B) (r : Outcome A × Process)
    → Ends F S r
    → ((e : StartError) (q : Process) → F e q → Ends F' S (on_error e q))
    → ((a : A) (q : Process) → S a q → Ends F' S' (rest a q))
    → Ends F' S' (after abort rest (after on_error give r))
Ends-step F S F' S' on_error rest r h bad good =
    Ends-after F' S F' S' abort rest (after on_error give r)
      (Ends-after F S F' S on_error give r h bad (λ a q s. s)) (λ e q f. f) good

pub Holds-nothing : (p : Process) → Holds nothing p p
Holds-nothing p = record { opened = λ x. refl; range = λ x h. cc; later = omega arith }

module _ {held : ℕ → Bool} {p q : Process} (h : Holds held p q) where
  pub Holds-open : Holds (plus q.next held) p (open_handle q).1
  Holds-open = record {
    opened = λ x. ground (arith, h.opened x);
    range = λ x e. ground (arith, h.range x, h.later);
    later = omega (arith, h.later);
  }

  pub Holds-same : (held' : ℕ → Bool) → ((x : ℕ) → held x ≡ held' x) → Holds held' p q
  Holds-same held' same = record {
    opened = λ x. ground (arith, h.opened x, same x);
    range = λ x e. ground (arith, h.range x, same x);
    later = h.later;
  }

  -- The process may change otherwise.
  pub Holds-moved : (q' : Process) → q'.next ≡ q.next → q'.is_open ≡ q.is_open → Holds held p q'
  Holds-moved q' next is_open = record {
    opened = λ x. rw is_open (h.opened x);
    range = λ x e. omega (arith, h.range x e, next);
    later = omega (arith, h.later, next);
  }

pub next-close_all : (hs : List ℕ) (q : Process) → (close_all hs q).1.next ≡ q.next
next-close_all [] q = refl
next-close_all (x ∷ hs) q = next-close_all hs (close x q).1

is_open-close_all :
    (hs : List ℕ) (q : Process) (x : ℕ)
    → (close_all hs q).1.is_open x ≡ (not (among hs x) && q.is_open x)
is_open-close_all [] q x = refl
is_open-close_all (h ∷ hs) q x = ground (arith, is_open-close_all hs (close h q).1 x)

-- Of what is held, any part may be closed.
pub Holds-close_all :
    (held : ℕ → Bool) (p q : Process) (hs : List ℕ)
    → IsFresh p
    → Holds held p q
    → ((x : ℕ) → among hs x ≡ true → held x ≡ true)
    → Holds (minus hs held) p (close_all hs q).1
Holds-close_all held p q hs fresh h part = record {
  opened = λ x. ground (arith, is_open-close_all hs q x, h.opened x, h.range x, part x, fresh x);
  range = λ x e. ground (arith, next-close_all hs q, h.range x);
  later = omega (arith, next-close_all hs q, h.later);
}

pub among-last : (hs : List ℕ) (h x : ℕ) → plus h (among hs) x ≡ among (hs ++ h ∷ []) x
among-last [] h x = refl
among-last (y ∷ hs) h x = ground (arith, among-last hs h x)

pub close_all-started :
    (hs : List ℕ) (q : Process) → close_all hs q ≡ (started tt, (close_all hs q).1)
close_all-started [] q = refl
close_all-started (x ∷ hs) q = close_all-started hs (close x q).1

pub close_last :
    (hs : List ℕ) (h : ℕ) (q : Process)
    → (close h (close_all hs q).1).1 ≡ (close_all (hs ++ h ∷ []) q).1
close_last [] h q = refl
close_last (x ∷ hs) h q = close_last hs h (close x q).1

module _ (p : Process) (fresh : IsFresh p) where
  -- The number of the next handle is not held.
  pub unmade : (held : ℕ → Bool) (q : Process) → Holds held p q → held q.next ≡ false
  unmade held q h = elim (Bool-cases (held q.next)) [
    | inl e ↦ absurd (omega (arith, h.range q.next e))
    | inr e ↦ e
  ]

  -- A handle that is closed at once.
  pub Holds-closed :
      (held : ℕ → Bool) (q : Process)
      → Holds held p q
      → Holds held p (close q.next (open_handle q).1).1
  Holds-closed held q h =
      Holds-same
        (Holds-close_all (plus q.next held) p (open_handle q).1 (q.next ∷ []) fresh (Holds-open h)
          (λ x e. ground arith))
        held (λ x. ground (arith, unmade held q h))

  -- All that is held is closed.
  pub Holds-none :
      (hs : List ℕ) (q : Process) → Holds (among hs) p q → Holds nothing p (close_all hs q).1
  Holds-none hs q h =
      Holds-same (Holds-close_all (among hs) p q hs fresh h (λ x e. e)) nothing (λ x. ground arith)
