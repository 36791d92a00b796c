-- ===== src/Jobs/Worker.antt =====
-- internal/jobs/worker.go: `Run` starts a goroutine for each job. The steps of the goroutines and of
-- `Run` itself interleave in any order.
pub mod Ends
pub mod Goroutines
pub mod Outcomes
pub mod FirstError
use go_with_me.Base.{
  String, ◌<◌, Bool, true, false, Option, none, some, List, [], ◌∷◌, ◌++◌, ◌≡◌, ◌≢◌, if◌then◌else◌,
  length, map, All,
}
use go_with_me.ApiError.{Error, canceled, is_canceled}
use go_with_me.Action.{Action}

pub record Job : Type 0 where
  pub name : String
  pub handler : Action (Unit {0})

pub record Worker : Type 0 where
  pub jobs : List Job

abbrev pub new_worker : Worker
new_worker = record { jobs = [] }

unfoldable pub register : String → Action (Unit {0}) → Worker → Worker
register name fn w = record { jobs = w.jobs ++ record { name = name; handler = fn } ∷ [] }

-- Where a goroutine stands, with what its handler returned: in the handler, before `errCh <- err`,
-- before `wg.Done()`, and past it.
pub data Pc : Type 0 where
  handling : Pc
  sending : Error → Pc
  leaving gone : Option Error → Pc

-- An error other than `context.Canceled` is sent.
abbrev pub after_handler : Option Error → Pc
after_handler none = leaving none
after_handler (some e) = if is_canceled e then leaving (some e) else sending e

-- `errCh` with what is in it, whether it is closed, and what `Run` has returned. `sent` is the history
-- of the channel.
pub record Running : Type 0 where
  pub pcs : List Pc
  pub channel : List Error
  pub is_closed : Bool
  pub cancelled : Bool
  pub result : Option (Option Error)
  pub sent : List Error

abbrev pub launched : Worker → Running
launched w = record {
  pcs = map (λ _. handling) w.jobs;
  channel = [];
  is_closed = false;
  cancelled = false;
  result = none;
  sent = [];
}

abbrev pub is_gone : Pc → Bool
is_gone (gone _) = true
is_gone handling = false
is_gone (sending _) = false
is_gone (leaving _) = false

abbrev pub IsGone : Pc → Type 0
IsGone p = is_gone p ≡ true

pub data Step (s t : Running) : Type 0 where
  -- a handler returns
  finish :
      (xs ys : List Pc) (out : Option Error)
      → s.pcs ≡ xs ++ handling ∷ ys
      → t ≡ record s { pcs = xs ++ after_handler out ∷ ys }
      → Step s t
  -- `errCh <- err`, with room for as many errors as there are jobs
  send :
      (xs ys : List Pc) (e : Error)
      → s.pcs ≡ xs ++ sending e ∷ ys
      → length s.channel < length s.pcs
      → t ≡ record s {
        pcs = xs ++ leaving (some e) ∷ ys;
        channel = s.channel ++ e ∷ [];
        sent = s.sent ++ e ∷ [];
      }
      → Step s t
  -- `wg.Done()`
  leave :
      (xs ys : List Pc) (out : Option Error)
      → s.pcs ≡ xs ++ leaving out ∷ ys
      → t ≡ record s { pcs = xs ++ gone out ∷ ys }
      → Step s t
  -- `wg.Wait(); close(errCh)`, which is started only where there are jobs
  shut :
      s.pcs ≢ []
      → All IsGone s.pcs
      → s.is_closed ≡ false
      → t ≡ record s { is_closed = true }
      → Step s t
  -- `for err := range errCh`: an error, and the end of the channel
  receive :
      (e : Error) (rest : List Error)
      → s.result ≡ none
      → s.channel ≡ e ∷ rest
      → t ≡ record s { channel = rest; result = some (some e) }
      → Step s t
  drained :
      s.result ≡ none
      → s.channel ≡ []
      → s.is_closed ≡ true
      → t ≡ record s { result = some none }
      → Step s t
  -- the context is cancelled, for which `Run` waits where there is no job
  cancel : s.cancelled ≡ false → t ≡ record s { cancelled = true } → Step s t
  stop :
      s.result ≡ none
      → s.pcs ≡ []
      → s.cancelled ≡ true
      → t ≡ record s { result = some (some canceled) }
      → Step s t

-- The states that steps lead to.
pub data Reach (s : Running) : Running → Type 0 where
  start : Reach s s
  later : {t u : Running} → Reach s t → Step t u → Reach s u
