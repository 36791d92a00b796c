-- ===== src/Services/Auth/Reset/Otp.antt =====
-- `fmt.Sprintf("%06d", n)` for a number below a million.
use Prim.Native.Char.{Char}
use Prim.Native.String.{String, [], ◌∷◌}
use go_with_me.Base.{ℕ, zero, suc, ◌/◌, ◌%◌}

-- The decimal digit, for a number below ten.
unfoldable pub digit : ℕ → Char
digit zero = "0"
digit (suc zero) = "1"
digit (suc (suc zero)) = "2"
digit (suc (suc (suc zero))) = "3"
digit (suc (suc (suc (suc zero)))) = "4"
digit (suc (suc (suc (suc (suc zero))))) = "5"
digit (suc (suc (suc (suc (suc (suc zero)))))) = "6"
digit (suc (suc (suc (suc (suc (suc (suc zero))))))) = "7"
digit (suc (suc (suc (suc (suc (suc (suc (suc zero)))))))) = "8"
digit (suc (suc (suc (suc (suc (suc (suc (suc (suc _))))))))) = "9"

unfoldable pub otp_text : ℕ → String
unfolding digit
otp_text n =
    digit (n / 100_000 % 10)
    ∷ digit (n / 10_000 % 10)
    ∷ digit (n / 1_000 % 10)
    ∷ digit (n / 100 % 10)
    ∷ digit (n / 10 % 10)
    ∷ digit (n % 10)
    ∷ []
