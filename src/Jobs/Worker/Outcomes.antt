-- ===== src/Jobs/Worker/Outcomes.antt =====
-- What the result of `Run` says of the handlers.
use go_with_me.Base.{
  ◌+◌, ◌≤◌, true, false, Option, none, some, List, [], ◌∷◌, ◌++◌, ◌≡◌, refl, sym, ◌∙◌, ap,
  Bool-cases, arith, ◌⊎◌, inl, inr, All, count, length, count-at, All-at, at-All, length-at,
}
use go_with_me.ApiError.{Error, canceled}
use go_with_me.Jobs.Worker.{
  Worker, Pc, handling, sending, leaving, gone, after_handler, Running, launched, is_gone, IsGone,
  Step, finish, send, leave, shut, receive, drained, cancel, stop, Reach, start, later,
}
use go_with_me.Jobs.Worker.Goroutines.{
  is_unsent, has_sent, IsProper, length-last, ne-nil, finished, unsent-handling, has_sent-handling,
  handling-IsProper,
}

abbrev pub Fits : Running → Option (Option Error) → Type 0
Fits s none = s.sent ≡ s.channel
Fits s (some none) = (s.sent ≡ []) × (s.is_closed ≡ true) × All IsGone s.pcs
Fits s (some (some e)) = (s.sent ≡ e ∷ s.channel) ⊎ ((s.pcs ≡ []) × (e ≡ canceled))

pub record Inv (s : Running) : Type 0 where
  pub room : length s.channel + count is_unsent s.pcs ≤ length s.pcs
  pub reported : length s.sent ≡ count has_sent s.pcs
  pub proper : All IsProper s.pcs
  pub closed : s.is_closed ≡ true → All IsGone s.pcs
  pub fits : Fits s s.result

-- A channel that is closed has no goroutine before its end.
open_at :
    {s : Running} (xs ys : List Pc) (p : Pc)
    → Inv s
    → s.pcs ≡ xs ++ p ∷ ys
    → is_gone p ≡ false
    → s.is_closed ≡ false
open_at {s} xs ys p inv at alive = elim (Bool-cases s.is_closed) [
  | inr e ↦ e
  | inl e ↦
      let all : All IsGone (xs ++ p ∷ ys) = rw at at (inv.closed e) in
      let one = (All-at IsGone xs ys p all).0 in cc
]

-- A goroutine goes on without sending.
moved-Fits :
    (s : Running) (xs ys : List Pc) (p p' : Pc) (result : Option (Option Error))
    → s.pcs ≡ xs ++ p ∷ ys
    → s.is_closed ≡ false
    → Fits s result
    → Fits (record s { pcs = xs ++ p' ∷ ys }) result
moved-Fits s xs ys p p' none at alive h = h
moved-Fits s xs ys p p' (some none) at alive h = absurd (ground arith)
moved-Fits s xs ys p p' (some (some e)) at alive (inl h) = inl h
moved-Fits s xs ys p p' (some (some e)) at alive (inr h) = absurd (ne-nil xs ys p (sym at ∙ h.0))

moved-Inv :
    (s : Running) (xs ys : List Pc) (p p' : Pc)
    → s.pcs ≡ xs ++ p ∷ ys
    → is_gone p ≡ false
    → has_sent p' ≡ has_sent p
    → (is_unsent p ≡ false → is_unsent p' ≡ false)
    → IsProper p'
    → Inv s
    → Inv (record s { pcs = xs ++ p' ∷ ys })
moved-Inv s xs ys p p' at alive same less proper inv =
    let before : All IsProper (xs ++ p ∷ ys) = rw at at inv.proper in
    let still_open = open_at xs ys p inv at alive in
    record {
      room = ground (
        arith,
        inv.room,
        ap (count is_unsent) at,
        ap length at,
        count-at is_unsent xs ys p,
        count-at is_unsent xs ys p',
        length-at xs ys p,
        length-at xs ys p',
        less,
      );
      reported = ground (
        arith,
        inv.reported,
        ap (count has_sent) at,
        count-at has_sent xs ys p,
        count-at has_sent xs ys p',
      );
      proper = at-All IsProper xs ys p' proper (All-at IsProper xs ys p before).1;
      closed = λ e. absurd (ground arith);
      fits = moved-Fits s xs ys p p' s.result at still_open inv.fits;
    }

-- `errCh <- err`
sent-Fits :
    (s : Running) (xs ys : List Pc) (e : Error) (result : Option (Option Error))
    → s.pcs ≡ xs ++ sending e ∷ ys
    → s.is_closed ≡ false
    → Fits s result
    → Fits
        (record s {
          pcs = xs ++ leaving (some e) ∷ ys;
          channel = s.channel ++ e ∷ [];
          sent = s.sent ++ e ∷ [];
        })
        result
sent-Fits s xs ys e none at alive h = ap (λ es. es ++ e ∷ []) h
sent-Fits s xs ys e (some none) at alive h = absurd (ground arith)
sent-Fits s xs ys e (some (some f)) at alive (inl h) = inl (ap (λ es. es ++ e ∷ []) h)
sent-Fits s xs ys e (some (some f)) at alive (inr h) =
    absurd (ne-nil xs ys (sending e) (sym at ∙ h.0))

sent-Inv :
    (s : Running) (xs ys : List Pc) (e : Error)
    → s.pcs ≡ xs ++ sending e ∷ ys
    → Inv s
    → Inv (record s {
      pcs = xs ++ leaving (some e) ∷ ys;
      channel = s.channel ++ e ∷ [];
      sent = s.sent ++ e ∷ [];
    })
sent-Inv s xs ys e at inv =
    let before : All IsProper (xs ++ sending e ∷ ys) = rw at at inv.proper in
    let parts = All-at IsProper xs ys (sending e) before in
    let still_open = open_at xs ys (sending e) inv at refl in
    record {
      room = ground (
        arith,
        inv.room,
        ap (count is_unsent) at,
        ap length at,
        count-at is_unsent xs ys (sending e),
        count-at is_unsent xs ys (leaving (some e)),
        length-at xs ys (sending e),
        length-at xs ys (leaving (some e)),
        length-last s.channel e,
      );
      reported = ground (
        arith,
        inv.reported,
        ap (count has_sent) at,
        count-at has_sent xs ys (sending e),
        count-at has_sent xs ys (leaving (some e)),
        length-last s.sent e,
        parts.0,
      );
      proper = at-All IsProper xs ys (leaving (some e)) tt parts.1;
      closed = λ c. absurd (ground arith);
      fits = sent-Fits s xs ys e s.result at still_open inv.fits;
    }

shut-Fits :
    (s : Running) (result : Option (Option Error))
    → Fits s result
    → Fits (record s { is_closed = true }) result
shut-Fits s none h = h
shut-Fits s (some none) h = (h.0, refl, h.2)
shut-Fits s (some (some e)) h = h

cancel-Fits :
    (s : Running) (result : Option (Option Error))
    → Fits s result
    → Fits (record s { cancelled = true }) result
cancel-Fits s none h = h
cancel-Fits s (some none) h = h
cancel-Fits s (some (some e)) h = h

-- `Run` has not returned: what was sent is in the channel.
waiting : {s : Running} → Inv s → s.result ≡ none → s.sent ≡ s.channel
waiting inv none_yet = rw none_yet at inv.fits

Step-Inv : {s t : Running} → Step s t → Inv s → Inv t
Step-Inv {s} (finish xs ys out at eq) inv = rw eq (
    moved-Inv s xs ys handling (after_handler out) at refl (finished out).0 (λ u. cc)
      (finished out).1 inv)
Step-Inv {s} (send xs ys e at room eq) inv = rw eq (sent-Inv s xs ys e at inv)
Step-Inv {s} (leave xs ys out at eq) inv =
    rw eq (moved-Inv s xs ys (leaving out) (gone out) at refl refl (λ u. refl) tt inv)
Step-Inv {s} (shut some_job all open_yet eq) inv = rw eq (record {
  room = inv.room;
  reported = inv.reported;
  proper = inv.proper;
  closed = λ c. all;
  fits = shut-Fits s s.result inv.fits;
})
Step-Inv {s} (receive e rest none_yet at eq) inv = rw eq (record {
  room = omega (arith, inv.room, ap length at);
  reported = inv.reported;
  proper = inv.proper;
  closed = inv.closed;
  fits = inl (waiting inv none_yet ∙ at);
})
Step-Inv {s} (drained none_yet empty closed eq) inv = rw eq (record {
  room = inv.room;
  reported = inv.reported;
  proper = inv.proper;
  closed = inv.closed;
  fits = (waiting inv none_yet ∙ empty, closed, inv.closed closed);
})
Step-Inv {s} (cancel running eq) inv = rw eq (record {
  room = inv.room;
  reported = inv.reported;
  proper = inv.proper;
  closed = inv.closed;
  fits = cancel-Fits s s.result inv.fits;
})
Step-Inv {s} (stop none_yet no_job cancelled eq) inv = rw eq (record {
  room = inv.room;
  reported = inv.reported;
  proper = inv.proper;
  closed = inv.closed;
  fits = inr (no_job, refl);
})

launched-Inv : (w : Worker) → Inv (launched w)
launched-Inv w = record {
  room = omega (arith, unsent-handling w.jobs);
  reported = sym (has_sent-handling w.jobs);
  proper = handling-IsProper w.jobs;
  closed = λ c. cc;
  fits = refl;
}

pub Reach-Inv : (w : Worker) {s : Running} → Reach (launched w) s → Inv s
Reach-Inv w start = launched-Inv w
Reach-Inv w (later r step) = Step-Inv step (Reach-Inv w r)
