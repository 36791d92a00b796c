-- ===== src/Base/Text/Atoi.antt =====
-- `strconv.Atoi` of Go's standard library, with its error dropped.
use Prim.Native.Nat.{ℕ, ◌+◌, ◌-◌, ◌*◌, ◌^◌}
use Prim.Native.Char.{code}
use Prim.Native.String.{String, [], ◌∷◌}
use mathlib.Core.Bool.{◌&&◌}
use mathlib.Core.Option.{Option, none, some}
use go_with_me.Base.Tests.{ltb, leb, ◌==◌, if◌then◌else◌}

-- The number of a text of digits, after those of `n`; none where some character is no digit.
abbrev digits : ℕ → String → Option ℕ
digits n [] = some n
digits n (c ∷ s) =
    let rest = digits (n * 10 + (code c - 48)) s in
    if leb 48 (code c) && leb (code c) 57 then rest else none

abbrev pub int_max : ℕ
int_max = 2 ^ 63 - 1

-- An int of 64 bits: a number out of range is clamped, and one that does not parse is 0.
abbrev clamped : Option ℕ → ℕ
clamped none = 0
clamped (some n) = if ltb int_max n then int_max else n

-- At least one digit.
abbrev unsigned : String → ℕ
unsigned [] = 0
unsigned (c ∷ s) = clamped (digits 0 (c ∷ s))

-- A negative number counts as 0: its callers tell apart no two numbers below one.
unfoldable pub atoi : String → ℕ
atoi [] = 0
atoi (c ∷ s) = if code c == 45 then 0 else if code c == 43 then unsigned s else unsigned (c ∷ s)
