-- ===== src/Services/Auth/Reset/Digits.antt =====
-- The digits of `otp_text`, the code of a reset.
use Prim.Native.Char.{code, len_utf8}
use Prim.Native.String.len
use Prim.Native.String.{String, ◌∷◌, len}
use go_with_me.Base.{ℕ, zero, suc, ◌+◌, ◌*◌, ◌-◌, ◌/◌, ◌%◌, ◌<◌, ◌≡◌, refl, ◌∙◌, ap, arith}
use go_with_me.Base.Text.Digits.{IsDigit, IsDigits, decimal}
use go_with_me.Services.Auth.Reset.Otp.{digit, otp_text}

record WritesDigit (d : ℕ) : Type 0 where
  code_is : code (digit d) ≡ 48 + d
  one_byte : len_utf8 (digit d) ≡ 1

digit-WritesDigit : (d : ℕ) → d < 10 → WritesDigit d
unfolding digit
digit-WritesDigit zero h = record { code_is = refl; one_byte = refl }
digit-WritesDigit (suc zero) h = record { code_is = refl; one_byte = refl }
digit-WritesDigit (suc (suc zero)) h = record { code_is = refl; one_byte = refl }
digit-WritesDigit (suc (suc (suc zero))) h = record { code_is = refl; one_byte = refl }
digit-WritesDigit (suc (suc (suc (suc zero)))) h = record { code_is = refl; one_byte = refl }
digit-WritesDigit (suc (suc (suc (suc (suc zero))))) h = record { code_is = refl; one_byte = refl }
digit-WritesDigit (suc (suc (suc (suc (suc (suc zero)))))) h = record {
  code_is = refl;
  one_byte = refl;
}
digit-WritesDigit (suc (suc (suc (suc (suc (suc (suc zero))))))) h = record {
  code_is = refl;
  one_byte = refl;
}
digit-WritesDigit (suc (suc (suc (suc (suc (suc (suc (suc zero)))))))) h = record {
  code_is = refl;
  one_byte = refl;
}
digit-WritesDigit (suc (suc (suc (suc (suc (suc (suc (suc (suc n))))))))) h = record {
  code_is = omega arith;
  one_byte = refl;
}

digit-IsDigit : (d : ℕ) → d < 10 → IsDigit (digit d)
digit-IsDigit d h = record {
  low = omega (arith, (digit-WritesDigit d h).code_is);
  high = omega (arith, (digit-WritesDigit d h).code_is);
}

last_digit : (n : ℕ) → n % 10 < 10
last_digit n = omega arith

value : (n : ℕ) → code (digit (n % 10)) - 48 ≡ n % 10
value n = omega (arith, (digit-WritesDigit (n % 10) (last_digit n)).code_is)

is_digit : (n : ℕ) → IsDigit (digit (n % 10))
is_digit n = digit-IsDigit (n % 10) (last_digit n)

one_byte : (n : ℕ) → len_utf8 (digit (n % 10)) ≡ 1
one_byte n = (digit-WritesDigit (n % 10) (last_digit n)).one_byte

len-digit : (n : ℕ) (s : String) → len (digit (n % 10) ∷ s) ≡ 1 + len s
len-digit n s = (λ i. len.cons (digit (n % 10)) s i) ∙ ap (λ b. b + len s) (one_byte n)

six_digits :
    (n : ℕ)
    → n < 1_000_000
    → (((((0 + n / 100_000 % 10) * 10 + n / 10_000 % 10) * 10 + n / 1_000 % 10) * 10 + n / 100 % 10)
              * 10
            + n / 10 % 10)
          * 10
        + n % 10
      ≡ n
six_digits n h = omega arith

-- The code of a number below a million is six decimal digits, in six bytes, that write it.
pub otp_text_lem :
    (n : ℕ)
    → n < 1_000_000
    → IsDigits (otp_text n) × (len (otp_text n) ≡ 6) × (decimal 0 (otp_text n) ≡ n)
unfolding otp_text
otp_text_lem n h = (
  (
    is_digit (n / 100_000),
    (
      is_digit (n / 10_000),
      (is_digit (n / 1_000), (is_digit (n / 100), (is_digit (n / 10), (is_digit n, tt)))),
    ),
  ),
  rw
      (
        len-digit (n / 100_000),
        len-digit (n / 10_000),
        len-digit (n / 1_000),
        len-digit (n / 100),
        len-digit (n / 10),
        len-digit n,
      )
      refl,
  rw
      (
        value (n / 100_000),
        value (n / 10_000),
        value (n / 1_000),
        value (n / 100),
        value (n / 10),
        value n,
      )
      (six_digits n h),
)
