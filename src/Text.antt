-- ===== src/Text.antt =====
-- What the code uses of Go's strings and fmt: concatenation and `%d`.
use Prim.Native.String.{◌++◌ as append}
use image_bed.Prelude.{String, if◌then◌else◌, ltb, refl, suc, zero, ℕ, ◌%◌, ◌/◌, ◌≡◌}

infixl 66 ◌⧺◌
abbrev pub ◌⧺◌ : String → String → String
s ⧺ t = append s t

digit : ℕ → String
digit zero = "0"
digit (suc zero) = "1"
digit (suc (suc zero)) = "2"
digit (suc (suc (suc zero))) = "3"
digit (suc (suc (suc (suc zero)))) = "4"
digit (suc (suc (suc (suc (suc zero))))) = "5"
digit (suc (suc (suc (suc (suc (suc zero)))))) = "6"
digit (suc (suc (suc (suc (suc (suc (suc zero))))))) = "7"
digit (suc (suc (suc (suc (suc (suc (suc (suc zero)))))))) = "8"
digit _ = "9"

-- The number has at most `fuel` digits more.
decimal_from : ℕ → ℕ → String
decimal_from zero n = ""
decimal_from (suc fuel) n =
    let more = decimal_from fuel (n / 10) in if ltb n 10 then digit n else more ⧺ digit (n % 10)

-- `%d`: a number below 2 ^ 64 has at most twenty digits.
unfoldable pub decimal : ℕ → String
unfolding digit decimal_from
decimal n = decimal_from 20 n

decimal_tests : (decimal 0 ≡ "0") × (decimal 600 ≡ "600") × (decimal 1024 ≡ "1024")
unfolding decimal
decimal_tests = (refl, refl, refl)
