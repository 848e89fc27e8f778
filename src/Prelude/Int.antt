-- ===== src/Prelude/Int.antt =====
-- Signed integers for durations: a Go `time.Duration` may be negative.
use relayforge.Prelude.Tests.{◌==◌, ltb, leb, if◌then◌else◌}
use Prim.Native.Nat.{◌*◌, ◌%◌, ℕ, suc, ◌+◌, ◌-◌, ◌/◌, ◌≤◌}
use mathlib.Core.Bool.{Bool}

-- `negsuc n` is -(n + 1).
pub data ℤ : Type 0 where
  pos : ℕ → ℤ
  negsuc : ℕ → ℤ

abbrev pub pos_part : ℤ → ℕ
pos_part (pos n) = n
pos_part (negsuc n) = 0

abbrev pub neg_part : ℤ → ℕ
neg_part (pos n) = 0
neg_part (negsuc n) = suc n

-- a - b, as an integer.
abbrev pub sub_ℕ : ℕ → ℕ → ℤ
sub_ℕ a b = if leb b a then pos (a - b) else negsuc (b - a - 1)

abbrev pub ltz : ℤ → ℤ → Bool
ltz a b = ltb (pos_part a + neg_part b) (pos_part b + neg_part a)

abbrev pub lez : ℤ → ℤ → Bool
lez a b = leb (pos_part a + neg_part b) (pos_part b + neg_part a)

abbrev pub eqz : ℤ → ℤ → Bool
eqz a b = (pos_part a + neg_part b) == (pos_part b + neg_part a)

-- Go's integer division by a positive number: towards zero.
abbrev pub quot : ℤ → ℕ → ℤ
quot (pos n) k = pos (n / k)
quot (negsuc n) k = sub_ℕ 0 (suc n / k)

infix 50 ◌≤ℤ◌
abbrev pub ◌≤ℤ◌ : ℤ → ℤ → Type 0
a ≤ℤ b = pos_part a + neg_part b ≤ pos_part b + neg_part a

-- Duration.Milliseconds: whole milliseconds, towards zero.
abbrev pub whole_ms : ℤ → ℤ
whole_ms d = quot d 1000000

-- A number of milliseconds as a duration.
abbrev pub from_ms : ℤ → ℤ
from_ms (pos n) = pos (n * 1000000)
from_ms (negsuc n) = negsuc (n * 1000000 + 999999)

-- Time.Add; the times before Go's zero time are left out.
abbrev pub add_duration : ℕ → ℤ → ℕ
add_duration t (pos d) = t + d
add_duration t (negsuc d) = t - (d + 1)

abbrev pub int32_max : ℕ
int32_max = 2147483647

-- The conversion `int32(n)`, which wraps.
abbrev pub to_int32 : ℤ → ℤ
to_int32 (pos n) = let w = n % 4294967296 in if ltb w 2147483648 then pos w else sub_ℕ w 4294967296
to_int32 (negsuc n) =
    let w = n % 4294967296 in if ltb w 2147483648 then negsuc w else pos (4294967295 - w)

abbrev pub add_ℤ : ℤ → ℤ → ℤ
add_ℤ a b = sub_ℕ (pos_part a + pos_part b) (neg_part a + neg_part b)

-- What an `int64` holds of a number.
abbrev pub to_int64 : ℤ → ℤ
to_int64 (pos n) =
    let w = n % 18446744073709551616 in
    if ltb w 9223372036854775808 then pos w else sub_ℕ w 18446744073709551616
to_int64 (negsuc n) =
    let w = n % 18446744073709551616 in
    if ltb w 9223372036854775808 then negsuc w else pos (18446744073709551615 - w)
