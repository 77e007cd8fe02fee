-- ===== src/Base/Duration.antt =====
-- `time.Duration` is a number of nanoseconds.
use Prim.Native.Nat.{ℕ, ◌*◌}

abbrev pub second : ℕ
second = 1000000000

abbrev pub minute : ℕ
minute = 60 * second
