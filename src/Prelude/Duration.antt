-- ===== src/Prelude/Duration.antt =====
-- Go's time.Duration, an int64 of nanoseconds.
use Prim.Native.Nat.{ℕ, suc, ◌-◌, ◌*◌, ◌/◌, ◌%◌, ◌^◌, ◌<◌}
use mathlib.Core.Path.{◌≡◌, refl}
use mathlib.Core.Option.{Option, none, some}
use native.Mathlib.Omega.{arith}
use gocache.Prelude.Tests.{ltb, if◌then◌else◌, lt→ltb}
use gocache.Prelude.Int.{ℤ, pos, negsuc}
use gocache.Prelude.Decimal.{Fits}

abbrev pub second : ℕ
second = 1000000000

-- The integer of a bit pattern.
unfoldable pub of_bits : ℕ → ℤ
of_bits m = if ltb m (2 ^ 63) then pos m else negsuc (2 ^ 64 - m - 1)

-- `time.Duration(n) * time.Second`, which wraps round.
unfoldable pub seconds : ℤ → ℤ
unfolding of_bits
seconds (pos n) = of_bits ((n * second) % 2 ^ 64)
seconds (negsuc n) = of_bits ((2 ^ 64 - (suc n * second) % 2 ^ 64) % 2 ^ 64)

-- What `time.Until` says of an expiry time: none for one that lies behind, and 0 for no expiry.
abbrev pub remaining : ℕ → Option ℕ → Option ℤ
remaining now none = some (pos 0)
remaining now (some t) = if ltb t now then none else some (pos (t - now))

-- What the code relies on of `int64(d.Seconds())`: it is an int64, whole seconds are exact, and less
-- than a second is none. (The value goes through a float64.)
pub record IsWhole (whole : ℤ → ℤ) : Type 0 where
  pub fits : (z : ℤ) → Fits (whole z)
  pub exact : (n : ℕ) → n * second < 2 ^ 63 → whole (pos (n * second)) ≡ pos n
  pub below : (n : ℕ) → n < second → whole (pos n) ≡ pos 0

pub seconds_exact : (n : ℕ) → n < 9223372037 → seconds (pos n) ≡ pos (n * second)
unfolding seconds
seconds_exact n h =
    let small : n * second < 2 ^ 63 = omega arith in
    let same : (n * second) % 2 ^ 64 ≡ n * second = omega arith in
    rw (same, lt→ltb (n * second) (2 ^ 63) small) refl

-- A function that does so, within 63 bits; it takes no negative duration.
abbrev pub whole_seconds : ℤ → ℤ
whole_seconds (pos n) = pos ((n / 1000000000) % 2 ^ 63)
whole_seconds (negsuc n) = pos 0

pub whole_seconds-IsWhole : IsWhole whole_seconds
whole_seconds-IsWhole = record { fits = fits; exact = exact; below = below }
  where
    fits : (z : ℤ) → Fits (whole_seconds z)
    fits (pos n) = omega arith
    fits (negsuc n) = omega arith

    exact : (n : ℕ) → n * second < 2 ^ 63 → whole_seconds (pos (n * second)) ≡ pos n
    exact n h = let same : (n * second / 1000000000) % 2 ^ 63 ≡ n = omega arith in rw same refl

    below : (n : ℕ) → n < second → whole_seconds (pos n) ≡ pos 0
    below n h = let same : (n / 1000000000) % 2 ^ 63 ≡ 0 = omega arith in rw same refl
