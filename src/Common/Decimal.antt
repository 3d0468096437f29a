-- ===== src/Common/Decimal.antt =====
-- Numbers as `format!` prints them: `{}` and `{:02}`.
use Prim.Native.Nat.{ℕ, zero, suc, ◌+◌, ◌/◌, ◌%◌}
use mathlib.Core.List.{[], ◌∷◌, ◌++◌}
use simple_chat_ddn.Common.Text.{Text}
use simple_chat_ddn.Common.Tests.{ltb, if◌then◌else◌}

-- The digits of `n`, the fuel above the count of its digits.
digits_fuel : ℕ → ℕ → Text
digits_fuel zero n = []
digits_fuel (suc f) n =
    let front = digits_fuel f (n / 10) in
    if ltb n 10 then (b'0' + n) ∷ [] else front ++ (b'0' + n % 10) ∷ []

-- A number has no more digits than its value and one more.
unfoldable pub decimal : ℕ → Text
unfolding digits_fuel
decimal n = digits_fuel (suc n) n

-- Width two, filled with zeros from the left.
unfoldable pub decimal_02 : ℕ → Text
unfolding decimal
decimal_02 n = if ltb n 10 then b'0' ∷ decimal n else decimal n
