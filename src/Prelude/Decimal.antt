-- ===== src/Prelude/Decimal.antt =====
-- strconv.Itoa: the decimal digits of an int.
use Prim.Native.Nat.{ℕ, zero, suc, ◌-◌, ◌/◌, ◌%◌, ◌^◌}
use Prim.Native.String.{String, ◌++◌ as str_append}
use mathlib.Core.Path.{◌≡◌, refl}
use circular.Prelude.Tests.{ltb, ◌==◌, if◌then◌else◌}
use circular.Prelude.Words.{u64_mod, i64_half}

abbrev digit : ℕ → String
digit zero = "0"
digit (suc zero) = "1"
digit (suc (suc zero)) = "2"
digit (suc (suc (suc zero))) = "3"
digit (suc (suc (suc (suc zero)))) = "4"
digit (suc (suc (suc (suc (suc zero))))) = "5"
digit (suc (suc (suc (suc (suc (suc zero)))))) = "6"
digit (suc (suc (suc (suc (suc (suc (suc zero))))))) = "7"
digit (suc (suc (suc (suc (suc (suc (suc (suc zero)))))))) = "8"
digit _ = "9"

-- the digits of `n` before `later`; a number of 64 bits has at most 20
unfoldable pub digits : ℕ → ℕ → String → String
digits zero n later = later
digits (suc fuel) n later =
    let text = str_append (digit (n % 10)) later in
    let rest = digits fuel (n / 10) text in if n / 10 == 0 then text else rest

unfoldable pub itoa : ℕ → String
unfolding digits
itoa n = if ltb n i64_half then digits 20 n "" else str_append "-" (digits 20 (u64_mod - n) "")

itoa_positive : itoa 1209600 ≡ "1209600"
unfolding itoa
itoa_positive = refl

itoa_negative : itoa (2 ^ 64 - 35) ≡ "-35"
unfolding itoa
itoa_negative = refl
