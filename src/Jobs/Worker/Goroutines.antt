-- ===== src/Jobs/Worker/Goroutines.antt =====
-- Goroutines of the worker, one by one and in lists.
use go_with_me.Base.{
  suc, Bool, true, false, not, Option, none, some, List, [], ◌∷◌, ◌++◌, ◌≡◌, ◌≢◌, refl, Bool-cases,
  arith, inl, inr, All, count, length, map,
}
use go_with_me.ApiError.{Error, is_canceled}
use go_with_me.Jobs.Worker.{Job, Pc, handling, sending, leaving, gone, after_handler}

-- A goroutine that has not sent, and may.
abbrev pub is_unsent : Pc → Bool
is_unsent handling = true
is_unsent (sending _) = true
is_unsent (leaving _) = false
is_unsent (gone _) = false

abbrev pub is_failure : Option Error → Bool
is_failure none = false
is_failure (some e) = not (is_canceled e)

-- A goroutine that has sent what its handler returned.
abbrev pub has_sent : Pc → Bool
has_sent handling = false
has_sent (sending _) = false
has_sent (leaving out) = is_failure out
has_sent (gone out) = is_failure out

-- The goroutine is about to send an error that is one.
abbrev pub IsProper : Pc → Type 0
IsProper (sending e) = is_canceled e ≡ false
IsProper handling = Unit {0}
IsProper (leaving _) = Unit {0}
IsProper (gone _) = Unit {0}

pub length-last : (es : List Error) (e : Error) → length (es ++ e ∷ []) ≡ suc (length es)
length-last [] e = refl
length-last (x ∷ es) e = omega (arith, length-last es e)

pub ne-nil : (xs ys : List Pc) (p : Pc) → xs ++ p ∷ ys ≢ []
ne-nil [] ys p e = cc
ne-nil (x ∷ xs) ys p e = cc

pub finished :
    (out : Option Error) → (has_sent (after_handler out) ≡ false) × IsProper (after_handler out)
finished none = (refl, tt)
finished (some e) = elim (Bool-cases (is_canceled e)) [
  | inl c ↦ rw c (ground arith, tt)
  | inr n ↦ rw n (refl, n)
]

pub unsent-handling :
    (jobs : List Job)
    → count is_unsent (map (λ _. handling) jobs) ≡ length (map {B = Pc} (λ _. handling) jobs)
unsent-handling [] = refl
unsent-handling (j ∷ jobs) = omega (arith, unsent-handling jobs)

pub has_sent-handling : (jobs : List Job) → count has_sent (map (λ _. handling) jobs) ≡ 0
has_sent-handling [] = refl
has_sent-handling (j ∷ jobs) = omega (arith, has_sent-handling jobs)

pub handling-IsProper : (jobs : List Job) → All IsProper (map (λ _. handling) jobs)
handling-IsProper [] = tt
handling-IsProper (j ∷ jobs) = (tt, handling-IsProper jobs)
