-- ===== src/Jobs/Worker/Ends.antt =====
-- That `Run` returns.
use go_with_me.Base.{
  ℕ, suc, ◌+◌, ◌*◌, ◌≤◌, ◌<◌, true, false, Option, none, some, List, [], ◌∷◌, ◌++◌, ◌≡◌, ◌≢◌, refl,
  ap, arith, ◌⊎◌, inl, inr, All, count, length, map, Bool-cases, Option-cases, if◌then◌else◌,
  count-at,
}
use go_with_me.ApiError.{Error}
use go_with_me.Jobs.Worker.{
  Job, Worker, Pc, handling, sending, leaving, gone, after_handler, Running, launched, is_gone,
  IsGone, Step, finish, send, leave, shut, receive, drained, cancel, stop, Reach, start, later,
}
use go_with_me.Jobs.Worker.Goroutines.{is_unsent}
use go_with_me.Jobs.Worker.Outcomes.{Inv, Reach-Inv}

-- How many steps of its own a goroutine has before it, at most.
abbrev weight : Pc → ℕ
weight handling = 3
weight (sending _) = 2
weight (leaving _) = 1
weight (gone _) = 0

abbrev weights : List Pc → ℕ
weights [] = 0
weights (p ∷ ps) = weight p + weights ps

abbrev waits : Option (Option Error) → ℕ
waits none = 1
waits (some _) = 0

abbrev measure : Running → ℕ
measure s =
    weights s.pcs + (if s.is_closed then 0 else 1) + (if s.cancelled then 0 else 1) + waits s.result

weights-at : (xs ys : List Pc) (p : Pc) → weights (xs ++ p ∷ ys) ≡ weight p + weights (xs ++ ys)
weights-at [] ys p = refl
weights-at (x ∷ xs) ys p = omega (arith, weights-at xs ys p)

weight-after_handler : (out : Option Error) → weight (after_handler out) < 3
weight-after_handler none = omega arith
weight-after_handler (some e) = ground arith

weights-moved :
    (xs ys : List Pc) (p p' : Pc)
    → weight p' < weight p
    → weights (xs ++ p' ∷ ys) < weights (xs ++ p ∷ ys)
weights-moved xs ys p p' less = omega (arith, weights-at xs ys p, weights-at xs ys p')

Step-measure : {s t : Running} → Step s t → measure t < measure s
Step-measure {s} (finish xs ys out at eq) = rw eq (
    omega (
      arith,
      ap weights at,
      weights-moved xs ys handling (after_handler out) (weight-after_handler out),
    ))
Step-measure {s} (send xs ys e at room eq) =
    rw eq (
      omega
        (arith, ap weights at, weights-moved xs ys (sending e) (leaving (some e)) (omega arith)))
Step-measure {s} (leave xs ys out at eq) =
    rw eq (omega (arith, ap weights at, weights-moved xs ys (leaving out) (gone out) (omega arith)))
Step-measure {s} (shut some_job all open_yet eq) = rw (eq, open_yet) (omega arith)
Step-measure {s} (receive e rest none_yet at eq) = rw (eq, none_yet) (omega arith)
Step-measure {s} (drained none_yet empty closed eq) = rw (eq, none_yet) (omega arith)
Step-measure {s} (cancel running eq) = rw (eq, running) (omega arith)
Step-measure {s} (stop none_yet no_job cancelled eq) = rw (eq, none_yet) (omega arith)

-- The number of steps.
abbrev pub steps : {s t : Running} → Reach s t → ℕ
steps start = 0
steps (later r step) = suc (steps r)

steps-measure : (s : Running) {t : Running} (r : Reach s t) → steps r + measure t ≤ measure s
steps-measure s start = omega arith
steps-measure s (later r step) = omega (arith, steps-measure s r, Step-measure step)

weights-handling : (jobs : List Job) → weights (map (λ _. handling) jobs) ≡ 3 * length jobs
weights-handling [] = omega arith
weights-handling (j ∷ jobs) = omega (arith, weights-handling jobs)

-- A goroutine that is not over, if there is one.
abbrev Alive : List Pc → Type 0
Alive ps = (xs : List Pc) × (ys : List Pc) × (p : Pc) × (ps ≡ xs ++ p ∷ ys) × (is_gone p ≡ false)

add-IsGone :
    (p : Pc) (ps : List Pc)
    → is_gone p ≡ true
    → All IsGone ps ⊎ Alive ps
    → All IsGone (p ∷ ps) ⊎ Alive (p ∷ ps)
add-IsGone p ps g (inl all) = inl (g, all)
add-IsGone p ps g (inr (xs, ys, q, at, alive)) = inr (p ∷ xs, ys, q, ap (λ t. p ∷ t) at, alive)

alive : (ps : List Pc) → All IsGone ps ⊎ Alive ps
alive [] = inl tt
alive (p ∷ ps) = elim (Bool-cases (is_gone p)) [
  | inl g ↦ add-IsGone p ps g (alive ps)
  | inr a ↦ inr ([], ps, p, refl, a)
]

List-cases : {A : Type 0} (xs : List A) → (xs ≡ []) ⊎ ((y : A) × (ys : List A) × (xs ≡ y ∷ ys))
List-cases [] = inl refl
List-cases (x ∷ xs) = inr (x, xs, refl)

abbrev Progress : Running → Type 0
Progress s = (t : Running) × Step s t

-- A goroutine that is not over has a step: its channel has room.
step_of :
    (s : Running) (xs ys : List Pc) (p : Pc)
    → Inv s
    → s.pcs ≡ xs ++ p ∷ ys
    → is_gone p ≡ false
    → Progress s
step_of s xs ys handling inv at a = (_, finish xs ys none at refl)
step_of s xs ys (sending e) inv at a = (
  _,
  send xs ys e at
      (omega (arith, inv.room, ap (count is_unsent) at, count-at is_unsent xs ys (sending e))) refl,
)
step_of s xs ys (leaving out) inv at a = (_, leave xs ys out at refl)
step_of s xs ys (gone out) inv at a = cc

next_at_end : (s : Running) → Inv s → s.result ≡ none → s.is_closed ≡ true → Progress s
next_at_end s inv none_yet closed = elim (List-cases s.channel) [
  | inl empty ↦ (_, drained none_yet empty closed refl)
  | inr (e, rest, at) ↦ (_, receive e rest none_yet at refl)
]

next_alone : (s : Running) → s.result ≡ none → s.pcs ≡ [] → Progress s
next_alone s none_yet no_job = elim (Bool-cases s.cancelled) [
  | inl done ↦ (_, stop none_yet no_job done refl)
  | inr running ↦ (_, cancel running refl)
]

next_of_gone : (s : Running) → Inv s → s.result ≡ none → All IsGone s.pcs → Progress s
next_of_gone s inv none_yet all = elim (Bool-cases s.is_closed) [
  | inl closed ↦ next_at_end s inv none_yet closed
  | inr open_yet ↦ elim (List-cases s.pcs) [
    | inl no_job ↦ next_alone s none_yet no_job
    | inr (p, ps, at) ↦ (_, shut (λ e. ground (arith, e, at)) all open_yet refl)
  ]
]

next_of : (s : Running) → Inv s → s.result ≡ none → Progress s
next_of s inv none_yet = elim (alive s.pcs) [
  | inl all ↦ next_of_gone s inv none_yet all
  | inr (xs, ys, p, at, a) ↦ step_of s xs ys p inv at a
]

-- Whatever the order of the steps: there are at most three for each job and three more, and as long
-- as `Run` has not returned there is a next one, where a handler that has not returned may return.
pub run_returns :
    (w : Worker) {s : Running} (r : Reach (launched w) s)
    → (steps r ≤ 3 * length w.jobs + 3) × ((s.result ≢ none) ⊎ ((t : Running) × Step s t))
run_returns w {s} r = (
  omega (arith, steps-measure (launched w) r, weights-handling w.jobs),
  elim (Option-cases s.result) [
    | inl none_yet ↦ inr (next_of s (Reach-Inv w r) none_yet)
    | inr (result, returned) ↦ inl (λ e. ground arith)
  ],
)
