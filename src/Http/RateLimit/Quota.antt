-- ===== src/Http/RateLimit/Quota.antt =====
-- How many requests the rate limit lets through.
use go_with_me.Base.{
  ℕ, suc, ◌+◌, ◌-◌, ◌≤◌, ◌<◌, String, Bool, true, false, Option, none, some, List, [], ◌∷◌, ◌≡◌,
  refl, sym, arith, All, length, leb, ◌==◌, Bool-cases, inl, inr,
}
use go_with_me.Http.RateLimit.{check_rate_limit}
use go_with_me.Http.RateLimit.Window.{
  RedisServer, Entry, is_before, value, expiry_of, after_expire, IsRedis, check, lets_through,
  decisions, store_after, quota,
}

quota-step : (max c n : ℕ) → quota (max - c) (suc n) ≡ leb (suc c) max ∷ quota (max - suc c) n
quota-step max c n = elim (Bool-cases (leb (suc c) max)) [
  | inl more ↦ let e : max - c ≡ suc (max - suc c) = ground arith in rw (e, more) refl
  | inr over ↦
      let e : max - c ≡ 0 = ground arith in
      let e' : max - suc c ≡ 0 = ground arith in rw (e, e', over) refl
]

quota-first : (max n : ℕ) → quota max (suc n) ≡ leb 1 max ∷ quota (max - 1) n
quota-first max n = let e : max - 0 ≡ max = omega arith in rw e at (quota-step max 0 n)

expired_at : (t n e : ℕ) → e ≤ t → value t (some (n, some e)) ≡ 0
expired_at t n e le = ground arith

within_alive :
    (e : ℕ) (times : List ℕ) → All (λ t. t < e) times → All (λ t. is_before t (some e) ≡ true) times
within_alive e [] h = tt
within_alive e (t ∷ times) h = (ground arith, within_alive e times h.1)

always : (times : List ℕ) → All (λ t. is_before t none ≡ true) times
always [] = tt
always (t ∷ times) = (refl, always times)

module _ {Store : Type 0} (r : RedisServer Store) (entry : Store → String → Entry)
    (laws : IsRedis r entry) where
  -- A request that finds a number of at least 1 under the key.
  check-again :
      (now : ℕ) (key : String) (max window c : ℕ) (expiry : Option ℕ) (s : Store)
      → entry s key ≡ some (suc c, expiry)
      → is_before now expiry ≡ true
      → (lets_through (check r now key max window s).0 ≡ leb (suc (suc c)) max)
        × (entry (check r now key max window s).1 key ≡ some (suc (suc c), expiry))
  unfolding check check_rate_limit
  check-again now key max window c expiry s has alive =
      let number : value now (entry s key) ≡ suc c = rw (has, alive) refl in
      let kept : expiry_of now (entry s key) ≡ expiry = rw (has, alive) refl in
      let not_first : (suc (suc c) == 1) ≡ false = ground arith in
      let after = laws.after_incr now key s in
      rw (laws.incr now key s, number, not_first) (refl, rw (number, kept) at after)

  -- The requests that find it, before it expires.
  decisions-again :
      (key : String) (max window c : ℕ) (expiry : Option ℕ) (times : List ℕ) (s : Store)
      → entry s key ≡ some (suc c, expiry)
      → All (λ t. is_before t expiry ≡ true) times
      → decisions r key max window times s ≡ quota (max - suc c) (length times)
  decisions-again key max window c expiry [] s has alive = refl
  decisions-again key max window c expiry (t ∷ times) s has alive =
      let (allowed, next) = check-again t key max window c expiry s has alive.0 in
      let rest =
        decisions-again key max window (suc c) expiry times (check r t key max window s).1 next
          alive.1 in
      rw (allowed, rest) (sym (quota-step max (suc c) (length times)))

  entry-after :
      (key : String) (max window c : ℕ) (expiry : Option ℕ) (times : List ℕ) (s : Store)
      → entry s key ≡ some (suc c, expiry)
      → All (λ t. is_before t expiry ≡ true) times
      → (n : ℕ) × (entry (store_after r key max window times s) key ≡ some (n, expiry))
  entry-after key max window c expiry [] s has alive = (suc c, has)
  entry-after key max window c expiry (t ∷ times) s has alive =
      let (allowed, next) = check-again t key max window c expiry s has alive.0 in
      entry-after key max window (suc c) expiry times (check r t key max window s).1 next alive.1

  -- A request that finds no number, with whether EXPIRE is then answered.
  check-first :
      (now : ℕ) (key : String) (max window : ℕ) (answered : Bool) (s : Store)
      → value now (entry s key) ≡ 0
      → (r.expire now key window (r.incr now key s).1).0 ≡ answered
      → (lets_through (check r now key max window s).0 ≡ leb 1 max)
        × (entry (check r now key max window s).1 key
            ≡ after_expire answered (now + window) (some (1, expiry_of now (entry s key))))
  unfolding check check_rate_limit
  check-first now key max window answered s none_yet replied =
      let after = laws.after_incr now key s in
      let expired = laws.after_expire now key window (r.incr now key s).1 in
      rw (laws.incr now key s, none_yet) (refl, rw (after, none_yet, replied) at expired)

  -- Where Redis is up and no counter stands under the key, or an expired one: of the requests under
  -- the key that come before the window from the first one is over, the first `max` are let through
  -- and no other, and once it is over, the counter stands at 0 again.
  pub check_rate_limit_lem :
      (key : String) (max window first : ℕ) (times : List ℕ) (s : Store) (t : ℕ)
      → value first (entry s key) ≡ 0
      → (r.expire first key window (r.incr first key s).1).0 ≡ true
      → All (λ t. t < first + window) times
      → first + window ≤ t
      → (decisions r key max window (first ∷ times) s ≡ quota max (suc (length times)))
        × (value t (entry (store_after r key max window (first ∷ times) s) key) ≡ 0)
  check_rate_limit_lem key max window first times s t none_yet replied within over =
      let (allowed, next) = check-first first key max window true s none_yet replied in
      let alive = within_alive (first + window) times within in
      let s' = (check r first key max window s).1 in
      let rest = decisions-again key max window 0 (some (first + window)) times s' next alive in
      let (n, last) = entry-after key max window 0 (some (first + window)) times s' next alive in
      (
        rw (allowed, rest) (sym (quota-first max (length times))),
        rw last (expired_at t n (first + window) over),
      )

  -- Where no counter stands under the key, and EXPIRE is not answered on the first request: the first
  -- `max` requests under the key are let through and no other, at whatever times they come.
  pub lost_expiry :
      (key : String) (max window first : ℕ) (times : List ℕ) (s : Store)
      → entry s key ≡ none
      → (r.expire first key window (r.incr first key s).1).0 ≡ false
      → decisions r key max window (first ∷ times) s ≡ quota max (suc (length times))
  lost_expiry key max window first times s absent lost =
      let none_yet : value first (entry s key) ≡ 0 = rw absent refl in
      let (allowed, next) = check-first first key max window false s none_yet lost in
      let s' = (check r first key max window s).1 in
      let unbounded : entry s' key ≡ some (1, none) = rw absent at next in
      let rest = decisions-again key max window 0 none times s' unbounded (always times) in
      rw (allowed, rest) (sym (quota-first max (length times)))
