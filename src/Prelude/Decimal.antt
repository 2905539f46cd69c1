-- ===== src/Prelude/Decimal.antt =====
-- `strconv.Itoa` on a number that is not negative.
use Prim.Native.Nat.{ℕ, zero, suc, ◌/◌, ◌%◌}
use Prim.Native.String.{String, ◌++◌ as ◌<>◌}
use mathlib.Core.List.{List, [], ◌∷◌}
use node_disruption_controll.Prelude.Tests.{ltb, if◌then◌else◌}

abbrev pick_digit : List String → ℕ → String
pick_digit [] d = ""
pick_digit (t ∷ ts) zero = t
pick_digit (t ∷ ts) (suc d) = pick_digit ts d

abbrev digit : ℕ → String
digit = pick_digit ("0" ∷ "1" ∷ "2" ∷ "3" ∷ "4" ∷ "5" ∷ "6" ∷ "7" ∷ "8" ∷ "9" ∷ [])

-- The number has fewer digits than the fuel that `itoa` gives.
itoa_fuel : ℕ → ℕ → String
itoa_fuel zero n = ""
itoa_fuel (suc f) n =
    let longer = itoa_fuel f (n / 10) <> digit (n % 10) in if ltb n 10 then digit n else longer

unfoldable pub itoa : ℕ → String
unfolding itoa_fuel
itoa n = itoa_fuel (suc n) n
