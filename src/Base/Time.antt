-- ===== src/Base/Time.antt =====
-- Times and durations of Go's time package, in nanoseconds. A time is counted from Go's zero
-- time, the start of the year 1.
use Prim.Native.Nat.{ℕ, ◌-◌, ◌*◌, ◌/◌}

abbrev pub second : ℕ
second = 1_000_000_000

abbrev pub minute : ℕ
minute = 60_000_000_000

-- 1970-01-01, in seconds.
abbrev pub unix_epoch : ℕ
unix_epoch = 62_135_596_800

-- Time.Unix, of a time after 1970.
unfoldable pub unix : ℕ → ℕ
unix t = t / second - unix_epoch

-- Time.UnixNano, of a time after 1970.
unfoldable pub unix_nano : ℕ → ℕ
unix_nano t = t - unix_epoch * second
