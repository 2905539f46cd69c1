-- ===== src/Prelude/Float.antt =====
-- Go's `float64` of an integer of 64 bits, and back: the nearest number with 53 binary digits,
-- the even one of two that are as near.
use Prim.Native.Nat.{ℕ, zero, suc, ◌+◌, ◌-◌, ◌*◌, ◌/◌, ◌%◌, ◌^◌, ◌<◌}
use mathlib.Core.Path.{◌≡◌, ap}
use mathlib.Core.Bool.{◌||◌, ◌&&◌}
use native.Mathlib.Omega.{arith}
use node_disruption_controll.Prelude.Tests.{ltb, leb, ◌==◌, if◌then◌else◌}
use node_disruption_controll.Prelude.Int.{ℤ, pos, negsuc, pos_part, neg_part, sub_ℕ, leb_ℤ, wrap64}

-- How many binary digits of a number lie beyond the 53rd.
excess_bits : ℕ → ℕ → ℕ
excess_bits zero n = 0
excess_bits (suc f) n = let more = suc (excess_bits f (n / 2)) in if ltb n (2 ^ 53) then 0 else more

-- The multiple of 2 ^ e that is nearest to n.
round_even : ℕ → ℕ → ℕ
round_even zero n = n
round_even (suc e) n =
    let q = n / 2 ^ suc e in
    let r = n % 2 ^ suc e in
    if ltb (2 ^ e) r || ((r == 2 ^ e) && (q % 2 == 1)) then (q + 1) * 2 ^ suc e else q * 2 ^ suc e

-- A magnitude of at most 64 bits has at most 11 digits in excess.
round53 : ℕ → ℕ
unfolding excess_bits round_even
round53 n = round_even (excess_bits 11 n) n

unfoldable pub to_float64 : ℤ → ℤ
unfolding round53
to_float64 (pos n) = pos (round53 n)
to_float64 (negsuc n) = sub_ℕ 0 (round53 (suc n))

-- Back to `int`. The only value out of range that a rounded `int` takes is 2 ^ 63, which amd64
-- converts to -2 ^ 63.
unfoldable pub of_float64 : ℤ → ℤ
of_float64 a = wrap64 a

-- `math.Min`
unfoldable pub float_min : ℤ → ℤ → ℤ
float_min a b = if leb_ℤ a b then a else b

-- The largest power of two that is at most n, for n below 2 ^ 35.
power_below : ℕ → ℕ → ℕ
power_below zero n = 1
power_below (suc f) n = let half = power_below f (n / 2) in if ltb n 2 then 1 else 2 * half

-- `int64(d.Seconds())` of the magnitude of a duration. `Seconds` adds the whole seconds and the fraction as `float64`;
-- between 2 ^ k and twice that, these are 2 ^ (k - 52) apart, so that the sum is the next whole
-- number if the fraction misses it by at most half of that distance.
seconds_of : ℕ → ℕ
unfolding power_below
seconds_of d =
    let seconds = d / 1_000_000_000 in
    let missing = 1_000_000_000 - d % 1_000_000_000 in
    if ltb 0 seconds && leb (missing * 2 ^ 53) (power_below 34 seconds * 1_000_000_000)
    then seconds + 1
    else seconds

-- The whole of it is symmetric about 0.
unfoldable pub duration_seconds : ℤ → ℤ
unfolding seconds_of
duration_seconds (pos n) = pos (seconds_of n)
duration_seconds (negsuc n) = sub_ℕ 0 (seconds_of (suc n))

round53_lem : (n : ℕ) → n < 2 ^ 53 → round53 n ≡ n
unfolding round53
round53_lem n h = ground arith

-- Below 53 binary digits the conversion is exact.
pub to_float64_lem : (a : ℤ) → pos_part a < 2 ^ 53 → neg_part a < 2 ^ 53 → to_float64 a ≡ a
unfolding to_float64
to_float64_lem (pos n) h k = ap pos (round53_lem n h)
to_float64_lem (negsuc n) h k = rw (round53_lem (suc n) k) (ground arith)
