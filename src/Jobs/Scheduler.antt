-- ===== src/Jobs/Scheduler.antt =====
-- internal/jobs/scheduler.go. Each job has a goroutine; what the goroutines do, and the passing of
-- time, interleave as a list of events.
use go_with_me.Base.{
  ℕ, zero, suc, ◌+◌, String, Bool, true, false, ◌||◌, List, [], ◌∷◌, ◌++◌, map, if◌then◌else◌,
}
use go_with_me.World.{World}
use go_with_me.Action.{Action}

pub record ScheduledJob : Type 0 where
  pub name : String
  pub interval : ℕ
  pub handler : Action (Unit {0})

pub record Scheduler : Type 0 where
  pub jobs : List ScheduledJob

abbrev pub new_scheduler : Scheduler
new_scheduler = record { jobs = [] }

unfoldable pub every : ℕ → String → Action (Unit {0}) → Scheduler → Scheduler
every interval name fn s = record {
  jobs = s.jobs ++ record { name = name; interval = interval; handler = fn } ∷ [];
}

-- The goroutine of a job, and whether it has returned.
pub record Loop : Type 0 where
  pub job : ScheduledJob
  pub returned : Bool

pub record Ticking : Type 0 where
  pub world : World
  pub cancelled : Bool
  pub loops : List Loop

-- `Run`, once it has started the goroutines.
abbrev pub launched : Scheduler → World → Ticking
launched s w = record {
  world = w;
  cancelled = false;
  loops = map (λ job. record { job = job; returned = false }) s.jobs;
}

-- A ticker may fire as long as its goroutine has not returned: where the context is cancelled too,
-- `select` takes either case.
pub data Event : Type 0 where
  elapse : ℕ → Event
  tick : ℕ → Event
  cancel : Event
  leave : ℕ → Event

-- The handler of the `i`th job runs; its error is logged only.
unfoldable pub fire : List Loop → ℕ → World → World
fire [] i w = w
fire (l ∷ ls) zero w = if l.returned then w else (l.job.handler w).1
fire (l ∷ ls) (suc i) w = fire ls i w

-- `case <-ctx.Done(): return`
unfoldable pub return_at : Bool → List Loop → ℕ → List Loop
return_at cancelled [] i = []
return_at cancelled (l ∷ ls) zero = record l { returned = l.returned || cancelled } ∷ ls
return_at cancelled (l ∷ ls) (suc i) = l ∷ return_at cancelled ls i

unfoldable pub step : Ticking → Event → Ticking
unfolding fire return_at
step t (elapse d) = record t { world = record t.world { now = t.world.now + d } }
step t (tick i) = record t { world = fire t.loops i t.world }
step t cancel = record t { cancelled = true }
step t (leave i) = record t { loops = return_at t.cancelled t.loops i }

unfoldable pub run : Ticking → List Event → Ticking
unfolding step
run t [] = t
run t (e ∷ es) = run (step t e) es
