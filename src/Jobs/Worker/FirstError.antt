-- ===== src/Jobs/Worker/FirstError.antt =====
-- The result of `Run`.
use go_with_me.Base.{
  ◌≤◌, true, false, Option, none, some, List, [], ◌∷◌, ◌++◌, ◌≡◌, refl, sym, ◌∙◌, ap, arith, ◌⊎◌,
  inl, inr, All, count, length, map, All-at, length-at,
}
use go_with_me.ApiError.{Error, canceled}
use go_with_me.Jobs.Worker.{
  Job, Worker, Pc, handling, sending, leaving, gone, after_handler, Running, launched, IsGone, Step,
  finish, send, leave, shut, receive, drained, cancel, stop, Reach, start, later,
}
use go_with_me.Jobs.Worker.Goroutines.{is_failure, has_sent, IsProper, ne-nil}
use go_with_me.Jobs.Worker.Outcomes.{Fits, Inv, Reach-Inv}

-- What the handler of a goroutine has returned.
abbrev pub outcome : Pc → Option Error
outcome handling = none
outcome (sending e) = none
outcome (leaving out) = out
outcome (gone out) = out

-- One of the goroutines has sent `e`, which its handler returned.
abbrev pub Sender : Error → List Pc → Type 0
Sender e [] = ⊥
Sender e (p ∷ ps) = ((has_sent p ≡ true) × (outcome p ≡ some e)) ⊎ Sender e ps

Sender-moved :
    (e : Error) (xs ys : List Pc) (p p' : Pc)
    → ((has_sent p ≡ true) × (outcome p ≡ some e) → (has_sent p' ≡ true) × (outcome p' ≡ some e))
    → Sender e (xs ++ p ∷ ys)
    → Sender e (xs ++ p' ∷ ys)
Sender-moved e [] ys p p' f (inl h) = inl (f h)
Sender-moved e [] ys p p' f (inr h) = inr h
Sender-moved e (x ∷ xs) ys p p' f (inl h) = inl h
Sender-moved e (x ∷ xs) ys p p' f (inr h) = inr (Sender-moved e xs ys p p' f h)

Sender-at :
    (e : Error) (xs ys : List Pc) (p : Pc)
    → (has_sent p ≡ true) × (outcome p ≡ some e)
    → Sender e (xs ++ p ∷ ys)
Sender-at e [] ys p h = inl h
Sender-at e (x ∷ xs) ys p h = inr (Sender-at e xs ys p h)

-- Every error that was sent has a sender.
abbrev Sent : List Pc → List Error → Type 0
Sent pcs = All (λ e. Sender e pcs)

Sent-moved :
    (xs ys : List Pc) (p p' : Pc) (es : List Error)
    → ((e : Error)
        → (has_sent p ≡ true) × (outcome p ≡ some e)
        → (has_sent p' ≡ true) × (outcome p' ≡ some e))
    → Sent (xs ++ p ∷ ys) es
    → Sent (xs ++ p' ∷ ys) es
Sent-moved xs ys p p' [] f h = tt
Sent-moved xs ys p p' (e ∷ es) f h =
    (Sender-moved e xs ys p p' (f e) h.0, Sent-moved xs ys p p' es f h.1)

Sent-last :
    (pcs : List Pc) (es : List Error) (e : Error)
    → Sent pcs es
    → Sender e pcs
    → Sent pcs (es ++ e ∷ [])
Sent-last pcs [] e h last = (last, tt)
Sent-last pcs (x ∷ es) e h last = (h.0, Sent-last pcs es e h.1 last)

Step-Sent : {s t : Running} → Step s t → Inv s → Sent s.pcs s.sent → Sent t.pcs t.sent
Step-Sent {s} (finish xs ys out at eq) inv h =
    rw eq (Sent-moved xs ys handling (after_handler out) s.sent (λ e p. cc) (rw at at h))
Step-Sent {s} (send xs ys e at room eq) inv h =
    let before : All IsProper (xs ++ sending e ∷ ys) = rw at at inv.proper in
    let proper = (All-at IsProper xs ys (sending e) before).0 in
    let kept = Sent-moved xs ys (sending e) (leaving (some e)) s.sent (λ e p. cc) (rw at at h) in
    rw eq (
      Sent-last (xs ++ leaving (some e) ∷ ys) s.sent e kept
        (Sender-at e xs ys (leaving (some e)) (ground arith, refl)))
Step-Sent {s} (leave xs ys out at eq) inv h =
    rw eq (Sent-moved xs ys (leaving out) (gone out) s.sent (λ e p. p) (rw at at h))
Step-Sent (shut some_job all open_yet eq) inv h = rw eq h
Step-Sent (receive e rest none_yet at eq) inv h = rw eq h
Step-Sent (drained none_yet empty closed eq) inv h = rw eq h
Step-Sent (cancel running eq) inv h = rw eq h
Step-Sent (stop none_yet no_job cancelled eq) inv h = rw eq h

Reach-Sent : (w : Worker) {s : Running} → Reach (launched w) s → Sent s.pcs s.sent
Reach-Sent w start = tt
Reach-Sent w (later r step) = Step-Sent step (Reach-Inv w r) (Reach-Sent w r)

-- The goroutine is over, and its handler returned nil or `context.Canceled`.
abbrev pub IsClean : Pc → Type 0
IsClean p = (out : Option Error) × (p ≡ gone out) × (is_failure out ≡ false)

-- What a result of `Run` says of a state.
abbrev pub Answers : Running → Option Error → Type 0
Answers s none = All IsClean s.pcs
Answers s (some e) = (s.sent ≡ e ∷ s.channel) × Sender e s.pcs

IsClean-one : (p : Pc) → IsGone p → has_sent p ≡ false → IsClean p
IsClean-one (gone out) g h = (out, refl, h)
IsClean-one handling g h = cc
IsClean-one (sending e) g h = cc
IsClean-one (leaving out) g h = cc

clean : (ps : List Pc) → All IsGone ps → count has_sent ps ≡ 0 → All IsClean ps
clean [] g h = tt
clean (p ∷ ps) g h = (IsClean-one p g.0 (ground arith), clean ps g.1 (ground arith))

length-handling : (jobs : List Job) → length (map {B = Pc} (λ _. handling) jobs) ≡ length jobs
length-handling [] = refl
length-handling (j ∷ jobs) = omega (arith, length-handling jobs)

length-Step : {s t : Running} → Step s t → length t.pcs ≡ length s.pcs
length-Step (finish xs ys out at eq) =
    rw eq
      (omega (arith, ap length at, length-at xs ys handling, length-at xs ys (after_handler out)))
length-Step (send xs ys e at room eq) =
    rw eq
      (omega (arith, ap length at, length-at xs ys (sending e), length-at xs ys (leaving (some e))))
length-Step (leave xs ys out at eq) =
    rw eq (omega (arith, ap length at, length-at xs ys (leaving out), length-at xs ys (gone out)))
length-Step (shut some_job all open_yet eq) = rw eq refl
length-Step (receive e rest none_yet at eq) = rw eq refl
length-Step (drained none_yet empty closed eq) = rw eq refl
length-Step (cancel running eq) = rw eq refl
length-Step (stop none_yet no_job cancelled eq) = rw eq refl

length-Reach : (w : Worker) {s : Running} → Reach (launched w) s → length s.pcs ≡ length w.jobs
length-Reach w start = length-handling w.jobs
length-Reach w (later r step) = length-Step step ∙ length-Reach w r

first_of :
    (s : Running) (e : Error)
    → 1 ≤ length s.pcs
    → Sent s.pcs s.sent
    → Fits s (some (some e))
    → Answers s (some e)
first_of s e some_job sent (inl first) =
    let one : Sent s.pcs (e ∷ s.channel) = rw first at sent in (first, one.0)
first_of s e some_job sent (inr no_job) = absurd (omega (arith, ap length no_job.0))

answer_of :
    (s : Running) (result : Option Error)
    → 1 ≤ length s.pcs
    → Sent s.pcs s.sent
    → length s.sent ≡ count has_sent s.pcs
    → Fits s (some result)
    → Answers s result
answer_of s none some_job sent reported fits =
    clean s.pcs fits.2 (omega (arith, reported, ap length fits.0))
answer_of s (some e) some_job sent reported fits = first_of s e some_job sent fits

-- A worker with a job, in any state that its goroutines lead to where `Run` has returned: if it
-- returned nil, every handler has returned nil or `context.Canceled`; if it returned an error, that is
-- the first that was sent, and the handler of one job returned it.
pub run_result :
    (w : Worker) {s : Running} {result : Option Error}
    → 1 ≤ length w.jobs
    → Reach (launched w) s
    → s.result ≡ some result
    → Answers s result
run_result w {s} {result} some_job r returned =
    let inv = Reach-Inv w r in
    let fits : Fits s (some result) = rw returned at inv.fits in
    answer_of s result (omega (arith, length-Reach w r)) (Reach-Sent w r) inv.reported fits

-- The state of a worker with no job.
record IsAlone (s : Running) : Type 0 where
  no_goroutine : s.pcs ≡ []
  is_open : s.is_closed ≡ false
  empty : s.channel ≡ []
  idle : (s.result ≡ none) ⊎ ((s.result ≡ some (some canceled)) × (s.cancelled ≡ true))

Step-IsAlone : {s t : Running} → Step s t → IsAlone s → IsAlone t
Step-IsAlone (finish xs ys out at eq) a = absurd (ne-nil xs ys handling (sym at ∙ a.no_goroutine))
Step-IsAlone (send xs ys e at room eq) a =
    absurd (ne-nil xs ys (sending e) (sym at ∙ a.no_goroutine))
Step-IsAlone (leave xs ys out at eq) a =
    absurd (ne-nil xs ys (leaving out) (sym at ∙ a.no_goroutine))
Step-IsAlone (shut some_job all open_yet eq) a = absurd (some_job a.no_goroutine)
Step-IsAlone (receive e rest none_yet at eq) a = absurd (ground (arith, at, a.empty))
Step-IsAlone (drained none_yet empty closed eq) a = absurd (ground (arith, closed, a.is_open))
Step-IsAlone {s} (cancel running eq) a = rw eq (record {
  no_goroutine = a.no_goroutine;
  is_open = a.is_open;
  empty = a.empty;
  idle = ground (arith, a.idle, running);
})
Step-IsAlone {s} (stop none_yet no_job cancelled eq) a = rw eq (record {
  no_goroutine = a.no_goroutine;
  is_open = a.is_open;
  empty = a.empty;
  idle = inr (refl, cancelled);
})

Reach-IsAlone : (w : Worker) {s : Running} → w.jobs ≡ [] → Reach (launched w) s → IsAlone s
Reach-IsAlone w no_job start = record {
  no_goroutine = ap (map (λ _. handling)) no_job;
  is_open = refl;
  empty = refl;
  idle = inl refl;
}
Reach-IsAlone w no_job (later r step) = Step-IsAlone step (Reach-IsAlone w no_job r)

-- A worker with no job, in any state that it gets to: `Run` has not returned, or it has returned
-- `context.Canceled`, after the context was cancelled.
pub run_without_jobs :
    (w : Worker) {s : Running}
    → w.jobs ≡ []
    → Reach (launched w) s
    → (s.result ≡ none) ⊎ ((s.result ≡ some (some canceled)) × (s.cancelled ≡ true))
run_without_jobs w no_job r = (Reach-IsAlone w no_job r).idle
