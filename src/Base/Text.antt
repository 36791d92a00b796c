-- ===== src/Base/Text.antt =====
-- `strings.TrimSpace`, `strings.ToLower` and `strings.EqualFold` of Go's standard library, on texts
-- as lists of characters. The case mapping is that of ASCII; other characters stay as they are.
pub mod Normal
pub mod Digits
pub mod Atoi
use Prim.Native.Nat.{ℕ, ◌+◌, ◌<◌}
use Prim.Native.Char.{Char, char, code, nul, IsScalar}
use Prim.Native.String.{String, [], ◌∷◌}
use mathlib.Core.Path.{◌≡◌}
use mathlib.Core.Bool.{Bool, true, false, ◌&&◌, ◌||◌}
use mathlib.Core.Option.{Option, none, some}
use native.Mathlib.Omega.{arith}
use native.Mathlib.Decide.{dec_lt}
use go_with_me.Base.Tests.{leb, ◌==◌, ◌=ₛ◌, if◌then◌else◌}

IsScalar_of_lt : (n : ℕ) → n < 55296 → IsScalar n
IsScalar_of_lt n h = ground arith

narrow_by : (n : ℕ) → Dec (n < 55296) → Char
unfolding IsScalar_of_lt
narrow_by n (yes h) = char n (IsScalar_of_lt n h)
narrow_by n (no _) = nul

-- The character of a number below the surrogates.
narrow : ℕ → Char
unfolding narrow_by dec_lt
narrow n = narrow_by n (dec_lt n 55296)

abbrev is_upper : ℕ → Bool
is_upper n = leb 65 n && leb n 90

-- `unicode.ToLower` on ASCII.
lower_char : Char → Char
unfolding narrow
lower_char c = if is_upper (code c) then narrow (code c + 32) else c

unfoldable pub to_lower : String → String
unfolding lower_char
to_lower [] = []
to_lower (c ∷ s) = lower_char c ∷ to_lower s

-- `unicode.IsSpace`, by the code point.
is_space : ℕ → Bool
is_space n =
    (leb 9 n && leb n 13)
    || n == 32
    || n == 133
    || n == 160
    || n == 5760
    || (leb 8192 n && leb n 8202)
    || n == 8232
    || n == 8233
    || n == 8239
    || n == 8287
    || n == 12288

abbrev is_empty : String → Bool
is_empty [] = true
is_empty (c ∷ s) = false

trim_left : String → String
unfolding is_space
trim_left [] = []
trim_left (c ∷ s) = if is_space (code c) then trim_left s else c ∷ s

trim_right : String → String
unfolding is_space
trim_right [] = []
trim_right (c ∷ s) =
    let rest = trim_right s in if is_space (code c) && is_empty rest then [] else c ∷ rest

unfoldable pub trim_space : String → String
unfolding trim_left trim_right
trim_space s = trim_right (trim_left s)

unfoldable pub equal_fold : String → String → Bool
unfolding to_lower
equal_fold s t = to_lower s =ₛ to_lower t

-- `strings.SplitN(s, " ", 2)`, where it has two parts: what stands before the first space and after.
abbrev cut_more : Char → Option (String × String) → Option (String × String)
cut_more c none = none
cut_more c (some (s, t)) = some (c ∷ s, t)

unfoldable pub cut_space : String → Option (String × String)
cut_space [] = none
cut_space (c ∷ s) = let rest = cut_space s in if code c == 32 then some ([], s) else cut_more c rest

-- What follows a prefix.
unfoldable pub drop_prefix : String → String → Option String
drop_prefix [] s = some s
drop_prefix (c ∷ prefix) [] = none
drop_prefix (c ∷ prefix) (d ∷ s) =
    let rest = drop_prefix prefix s in if code c == code d then rest else none
