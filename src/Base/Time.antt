-- ===== src/Base/Time.antt =====
-- Go's `time`: an instant is the number of nanoseconds since Go's zero time, so `IsZero` is the
-- test for 0 and `Truncate` is a multiple of the duration, as in Go. A duration is a number of
-- nanoseconds. `b - a` stops at 0 where `b.Sub(a)` is negative, and does not saturate at 292 years
-- where `Sub` does: the source compares it with positive bounds of at most 24 hours, where neither
-- is seen. `!a.After(b.Add(-d))` is written `a + d ≤ b`.
use Prim.Native.Nat.{ℕ, ◌-◌, ◌*◌, ◌/◌}
use mathlib.Core.Bool.{Bool}
use tidal_crypto_intelligenc.Base.Tests.{◌==◌}

abbrev pub millisecond : ℕ
millisecond = 1000000

abbrev pub second : ℕ
second = 1000000000

abbrev pub minute : ℕ
minute = 60000000000

abbrev pub hour : ℕ
hour = 3600000000000

-- Go's zero time.
abbrev pub zero_time : ℕ
zero_time = 0

abbrev pub is_zero : ℕ → Bool
is_zero t = t == 0

-- The instant of 1970-01-01T00:00:00Z.
abbrev pub unix_epoch : ℕ
unix_epoch = 62135596800000000000

-- `t.Truncate(d)`.
abbrev pub truncate : ℕ → ℕ → ℕ
truncate t d = t / d * d

-- `t.UnixMilli()` and `t.Unix()` for an instant that is not before 1970.
abbrev pub unix_milli : ℕ → ℕ
unix_milli t = (t - unix_epoch) / millisecond

abbrev pub unix : ℕ → ℕ
unix t = (t - unix_epoch) / second
