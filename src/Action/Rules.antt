-- ===== src/Action/Rules.antt =====
-- How a call that succeeded has run: the inversion of each combinator.
use go_with_me.Base.{Bool, true, false, ◌≡◌, refl}
use go_with_me.ApiError.{Error}
use go_with_me.World.{World}
use go_with_me.Action.{Result, ok, err, Action, bind_of, raise_if, ◌>>=◌}

module _ {A B : Type 0} where
  bind_of-ok :
      (p : Result A × World) (f : A → Action B) {b : B} {w' : World}
      → bind_of f p ≡ (ok b, w')
      → (a : A) × (w₁ : World) × (p ≡ (ok a, w₁)) × (f a w₁ ≡ (ok b, w'))
  bind_of-ok (ok a, w₁) f h = (a, w₁, refl, h)
  bind_of-ok (err e, w₁) f h = cc

  pub >>=-ok :
      (m : Action A) (f : A → Action B) {w w' : World} {b : B}
      → (m >>= f) w ≡ (ok b, w')
      → (a : A) × (w₁ : World) × (m w ≡ (ok a, w₁)) × (f a w₁ ≡ (ok b, w'))
  >>=-ok m f {w} h = bind_of-ok (m w) f h

  bind_of-read :
      (P : World → Type 0) (p : Result A × World) (f : A → Action B) (w : World)
      → p.1 ≡ w
      → P w
      → ((a : A) → p ≡ (ok a, w) → P (f a w).1)
      → P (bind_of f p).1
  bind_of-read P (ok a, v) f w e h k = rw e (k a (rw e))
  bind_of-read P (err e, v) f w same h k = rw same h

  -- After a call that only reads, the rest of the block runs in the same world.
  pub bind_read :
      (P : World → Type 0) (m : Action A) (f : A → Action B) (w : World)
      → (m w).1 ≡ w
      → P w
      → ((a : A) → m w ≡ (ok a, w) → P (f a w).1)
      → P ((m >>= f) w).1
  bind_read P m f w = bind_of-read P (m w) f w

  bind_of-then :
      (P : World → Type 0) (p : Result A × World) (f : A → Action B)
      → P p.1
      → ((a : A) (v : World) → p ≡ (ok a, v) → P v → P (f a v).1)
      → P (bind_of f p).1
  bind_of-then P (ok a, v) f h k = k a v refl h
  bind_of-then P (err e, v) f h k = h

  -- The rest of a block may use how its first call ended.
  pub bind_then :
      (P : World → Type 0) (m : Action A) (f : A → Action B) (w : World)
      → P (m w).1
      → ((a : A) (v : World) → m w ≡ (ok a, v) → P v → P (f a v).1)
      → P ((m >>= f) w).1
  bind_then P m f w = bind_of-then P (m w) f

pub raise_if-ok :
    (c : Bool) (e : Error) {w w' : World} {a : Unit {0}}
    → raise_if c e w ≡ (ok a, w')
    → (c ≡ false) × (w' ≡ w)
raise_if-ok true e h = cc
raise_if-ok false e h = (refl, cc)
