-- ===== src/Base/Lists.antt =====
-- Lists measured and searched by the native numbers.
use Prim.Native.Nat.{ℕ, zero, suc, ◌+◌, ◌≤◌}
use mathlib.Core.Path.{◌≡◌, refl, sym, ap, ◌∙◌}
use mathlib.Core.Bool.{Bool, true, false, ◌&&◌, ◌||◌}
use mathlib.Core.Option.{Option, none, some}
use mathlib.Core.List.{List, [], ◌∷◌, ◌++◌}
use native.Mathlib.Omega.{arith}
use go_with_me.Base.Tests.{if◌then◌else◌}

module _ {ℓ} {A : Type ℓ} where
  abbrev pub length : List A → ℕ
  length [] = 0
  length (x ∷ xs) = suc (length xs)

  abbrev pub any : (A → Bool) → List A → Bool
  any p [] = false
  any p (x ∷ xs) = p x || any p xs

  abbrev pub all : (A → Bool) → List A → Bool
  all p [] = true
  all p (x ∷ xs) = p x && all p xs

  -- The first element that passes the test.
  abbrev pub find? : (A → Bool) → List A → Option A
  find? p [] = none
  find? p (x ∷ xs) = if p x then some x else find? p xs

  -- The number of elements that pass the test.
  abbrev pub count : (A → Bool) → List A → ℕ
  count p [] = 0
  count p (x ∷ xs) = (if p x then 1 else 0) + count p xs

  -- The elements that pass the test, in their order.
  abbrev pub keep : (A → Bool) → List A → List A
  keep p [] = []
  keep p (x ∷ xs) = let rest = keep p xs in if p x then x ∷ rest else rest

  -- Applies `f` to the elements that pass the test.
  abbrev pub update_where : (A → Bool) → (A → A) → List A → List A
  update_where p f [] = []
  update_where p f (x ∷ xs) = (if p x then f x else x) ∷ update_where p f xs

module _ {ℓ κ} {A : Type ℓ} (P : A → Type κ) where
  abbrev pub All : List A → Type κ
  All [] = Unit
  All (x ∷ xs) = P x × All xs

module _ {ℓ} {A : Type ℓ} where
  abbrev pub take : ℕ → List A → List A
  take zero xs = []
  take (suc n) [] = []
  take (suc n) (x ∷ xs) = x ∷ take n xs

  abbrev pub drop : ℕ → List A → List A
  drop zero xs = xs
  drop (suc n) [] = []
  drop (suc n) (x ∷ xs) = drop n xs

  abbrev pub get_elem? : List A → ℕ → Option A
  get_elem? [] i = none
  get_elem? (x ∷ xs) zero = some x
  get_elem? (x ∷ xs) (suc i) = get_elem? xs i

  take-nil : (n : ℕ) → take n [] ≡ []
  take-nil zero = refl
  take-nil (suc n) = refl

  pub take-+ : (m n : ℕ) (xs : List A) → take (m + n) xs ≡ take m xs ++ take n (drop m xs)
  take-+ zero n xs = let zero_add : 0 + n ≡ n = omega arith in rw zero_add refl
  take-+ (suc m) n [] = take-nil (suc m + n) ∙ sym (take-nil n)
  take-+ (suc m) n (x ∷ xs) =
      let suc_add : suc m + n ≡ suc (m + n) = omega arith in
      rw suc_add (ap (λ t. x ∷ t) (take-+ m n xs))

  pub take-all : (n : ℕ) (xs : List A) → length xs ≤ n → take n xs ≡ xs
  take-all zero [] h = refl
  take-all zero (x ∷ xs) h = absurd (omega arith)
  take-all (suc n) [] h = refl
  take-all (suc n) (x ∷ xs) h = ap (λ t. x ∷ t) (take-all n xs (omega arith))

  pub length-take : (n : ℕ) (xs : List A) → length (take n xs) ≤ n
  length-take zero xs = omega arith
  length-take (suc n) [] = omega arith
  length-take (suc n) (x ∷ xs) = omega (arith, length-take n xs)

-- One element of a list, and the others.
module _ {ℓ} {A : Type ℓ} where
  pub count-at :
      (f : A → Bool) (xs ys : List A) (p : A)
      → count f (xs ++ p ∷ ys) ≡ (if f p then 1 else 0) + count f (xs ++ ys)
  count-at f [] ys p = refl
  count-at f (x ∷ xs) ys p = omega (arith, count-at f xs ys p)

  pub count-length : (f : A → Bool) (xs : List A) → count f xs ≤ length xs
  count-length f [] = omega arith
  count-length f (x ∷ xs) = ground (arith, count-length f xs)

  pub length-at : (xs ys : List A) (p : A) → length (xs ++ p ∷ ys) ≡ suc (length (xs ++ ys))
  length-at [] ys p = refl
  length-at (x ∷ xs) ys p = omega (arith, length-at xs ys p)

module _ {ℓ κ} {A : Type ℓ} (P : A → Type κ) where
  pub All-at : (xs ys : List A) (p : A) → All P (xs ++ p ∷ ys) → P p × All P (xs ++ ys)
  All-at [] ys p h = h
  All-at (x ∷ xs) ys p h = let rest = All-at xs ys p h.1 in (rest.0, (h.0, rest.1))

  pub at-All : (xs ys : List A) (p : A) → P p → All P (xs ++ ys) → All P (xs ++ p ∷ ys)
  at-All [] ys p hp h = (hp, h)
  at-All (x ∷ xs) ys p hp h = (h.0, at-All xs ys p hp h.1)
