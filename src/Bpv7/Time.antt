-- ===== src/Bpv7/Time.antt =====
-- time.go: DTN time and creation timestamps. An instant of Go's `time` is its integer of
-- nanoseconds since the Unix epoch.
use dtn.Prelude.{ℕ, ◌+◌, ◌==◌, Bool}
use dtn.Prelude.Int.{ℤ, pos, ◌*ℤ◌, signed64}

abbrev pub milliseconds_1970_to_2k : ℕ
milliseconds_1970_to_2k = 946684800000

-- `int64(t) + milliseconds1970To2k`
unfoldable pub unix_milliseconds : ℕ → ℤ
unix_milliseconds t = signed64 (t + milliseconds_1970_to_2k)

-- DtnTime.Time splits the milliseconds into seconds and nanoseconds, which `time.Unix` adds up.
unfoldable pub dtn_time_instant : ℕ → ℤ
dtn_time_instant t = unix_milliseconds t *ℤ pos 1000000

pub record CreationTimestamp : Type 0 where
  pub dtn_time : ℕ
  pub sequence_number : ℕ

unfoldable pub is_zero_time : CreationTimestamp → Bool
is_zero_time ct = ct.dtn_time == 0
