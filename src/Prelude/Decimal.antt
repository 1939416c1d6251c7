-- ===== src/Prelude/Decimal.antt =====
-- fmt's %d of an integer.
use Prim.Native.Nat.{ℕ, zero, suc, ◌/◌, ◌%◌}
use Prim.Native.String.{String, ◌++◌}
use mathlib.Core.Path.{◌≡◌, refl}
use losant_device.Prelude.Tests.{ltb, ◌==◌, if◌then◌else◌}
use losant_device.Prelude.Int.{ℤ, pos, negsuc}

digit : ℕ → String
digit n =
    if n == 0
    then "0"
    else if n == 1
    then "1"
    else if n == 2
    then "2"
    else if n == 3
    then "3"
    else if n == 4
    then "4"
    else if n == 5
    then "5"
    else if n == 6
    then "6"
    else if n == 7
    then "7"
    else if n == 8
    then "8"
    else "9"

-- The fuel counts digits.
digits : ℕ → ℕ → String
unfolding digit
digits zero n = ""
digits (suc fuel) n =
    let front = digits fuel (n / 10) in if ltb n 10 then digit n else front ++ digit (n % 10)

-- An int64 has at most 19 digits.
unfoldable pub decimal : ℤ → String
unfolding digits
decimal (pos n) = digits 20 n
decimal (negsuc n) = "-" ++ digits 20 (suc n)

decimal_example : decimal (pos 404) ≡ "404"
unfolding decimal
decimal_example = refl
