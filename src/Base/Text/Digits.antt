-- ===== src/Base/Text/Digits.antt =====
-- Texts of decimal digits: what trimming does to them, and the number that they write.
use Prim.Native.Nat.{ℕ, ◌+◌, ◌*◌, ◌-◌, ◌≤◌}
use Prim.Native.Char.{Char, code}
use Prim.Native.String.{String, [], ◌∷◌}
use mathlib.Core.Path.{◌≡◌, refl}
use mathlib.Core.Bool.{false}
use native.Mathlib.Omega.{arith}
use go_with_me.Base.Text.{is_space, trim_left, trim_right, trim_space}

pub record IsDigit (c : Char) : Type 0 where
  pub low : 48 ≤ code c
  pub high : code c ≤ 57

abbrev pub IsDigits : String → Type 0
IsDigits [] = Unit
IsDigits (c ∷ s) = IsDigit c × IsDigits s

-- The number that a text of digits writes, after the digits of `n`.
abbrev pub decimal : ℕ → String → ℕ
decimal n [] = n
decimal n (c ∷ s) = decimal (n * 10 + (code c - 48)) s

not-is_space_digit : (c : Char) → IsDigit c → is_space (code c) ≡ false
unfolding is_space
not-is_space_digit c d = ground (arith, d.low, d.high)

trim_left-IsDigits : (s : String) → IsDigits s → trim_left s ≡ s
unfolding trim_left
trim_left-IsDigits [] d = refl
trim_left-IsDigits (c ∷ s) d = rw (not-is_space_digit c d.0) refl

trim_right-IsDigits : (s : String) → IsDigits s → trim_right s ≡ s
unfolding trim_right
trim_right-IsDigits [] d = refl
trim_right-IsDigits (c ∷ s) d = rw (not-is_space_digit c d.0, trim_right-IsDigits s d.1) refl

pub trim_space-IsDigits : (s : String) → IsDigits s → trim_space s ≡ s
unfolding trim_space
trim_space-IsDigits s d = rw (trim_left-IsDigits s d) (trim_right-IsDigits s d)
