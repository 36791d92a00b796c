-- ===== src/Base/Text/Normal.antt =====
-- Trimming and lowering, twice and one after the other.
use Prim.Native.Nat.{ℕ, ◌+◌, ◌<◌, ◌≤◌}
use Prim.Native.Char.{Char, code}
use Prim.Native.String.{String, [], ◌∷◌}
use mathlib.Core.Path.{◌≡◌, refl, sym, ◌∙◌}
use mathlib.Core.Logic.{inl, inr}
use mathlib.Core.Bool.{Bool, true, false, ◌&&◌}
use native.Mathlib.Omega.{arith}
use native.Mathlib.Decide.{dec_lt}
use text.Mathlib.TextEquality.{Char-path}
use go_with_me.Base.Tests.{if◌then◌else◌, Bool-cases}
use go_with_me.Base.Text.{
  narrow_by, is_upper, lower_char, to_lower, is_space, is_empty, trim_left, trim_right, trim_space,
}

code-narrow_by : (n : ℕ) (d : Dec (n < 55296)) → n < 55296 → code (narrow_by n d) ≡ n
unfolding narrow_by
code-narrow_by n (yes _) h = refl
code-narrow_by n (no q) h = absurd (q h)

code-lower_char :
    (c : Char) → code (lower_char c) ≡ (if is_upper (code c) then code c + 32 else code c)
unfolding lower_char
code-lower_char c = elim (Bool-cases (is_upper (code c))) [
  | inl up ↦ rw up (code-narrow_by (code c + 32) (dec_lt _ _) (ground arith))
  | inr low ↦ rw low
]

lower_char_idem : (c : Char) → lower_char (lower_char c) ≡ lower_char c
lower_char_idem c =
    Char-path _ _ (ground (arith, code-lower_char (lower_char c), code-lower_char c))

to_lower_idem : (s : String) → to_lower (to_lower s) ≡ to_lower s
unfolding to_lower
to_lower_idem [] = refl
to_lower_idem (c ∷ s) = cc (lower_char_idem c, to_lower_idem s)

not-is_space_letter : (n : ℕ) → 65 ≤ n → n ≤ 122 → is_space n ≡ false
unfolding is_space
not-is_space_letter n lo hi = ground arith

is_space-lower_char : (c : Char) → is_space (code (lower_char c)) ≡ is_space (code c)
is_space-lower_char c = elim (Bool-cases (is_upper (code c))) [
  | inl up ↦
      rw (code-lower_char c, up)
        (not-is_space_letter (code c + 32) (ground arith) (ground arith)
          ∙ sym (not-is_space_letter (code c) (ground arith) (ground arith)))
  | inr low ↦ rw (code-lower_char c, low)
]

trim_left-to_lower : (s : String) → trim_left (to_lower s) ≡ to_lower (trim_left s)
unfolding to_lower trim_left
trim_left-to_lower [] = refl
trim_left-to_lower (c ∷ s) = ground (arith, is_space-lower_char c, trim_left-to_lower s)

-- One step of `trim_right`, in a text that is lowered before or after.
lower_step :
    (space : Bool) (c : Char) (rest : String)
    → (if space && is_empty (to_lower rest) then [] else lower_char c ∷ to_lower rest)
      ≡ to_lower (if space && is_empty rest then [] else c ∷ rest)
unfolding to_lower
lower_step true c [] = refl
lower_step true c (d ∷ rest) = refl
lower_step false c rest = refl

trim_right-to_lower : (s : String) → trim_right (to_lower s) ≡ to_lower (trim_right s)
unfolding to_lower trim_right
trim_right-to_lower [] = refl
trim_right-to_lower (c ∷ s) =
    rw (is_space-lower_char c, trim_right-to_lower s)
      (lower_step (is_space (code c)) c (trim_right s))

trim_right_idem : (s : String) → trim_right (trim_right s) ≡ trim_right s
unfolding trim_right
trim_right_idem [] = refl
trim_right_idem (c ∷ s) = ground (arith, trim_right_idem s)

-- What is left begins with no space, and trimming its end keeps that.
trim_left-trim_right :
    (s : String) → trim_left (trim_right (trim_left s)) ≡ trim_right (trim_left s)
unfolding trim_left trim_right
trim_left-trim_right [] = refl
trim_left-trim_right (c ∷ s) = ground (arith, trim_left-trim_right s)

pub trim_space_idem : (s : String) → trim_space (trim_space s) ≡ trim_space s
unfolding trim_space
trim_space_idem s = rw trim_left-trim_right (trim_right_idem (trim_left s))

trim_space-to_lower : (s : String) → trim_space (to_lower s) ≡ to_lower (trim_space s)
unfolding trim_space
trim_space-to_lower s = rw trim_left-to_lower (trim_right-to_lower (trim_left s))

-- An e-mail address as the repository stores and looks it up.
pub normal_idem :
    (s : String) → to_lower (trim_space (to_lower (trim_space s))) ≡ to_lower (trim_space s)
normal_idem s = simp (trim_space-to_lower, trim_space_idem, to_lower_idem)

-- A lookup trims again what a caller has trimmed before.
pub normal-trim_space :
    (s : String) → to_lower (trim_space (trim_space s)) ≡ to_lower (trim_space s)
normal-trim_space s = simp trim_space_idem
