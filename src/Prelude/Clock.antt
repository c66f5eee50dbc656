-- ===== src/Prelude/Clock.antt =====
-- time.Time as nanoseconds since the zero Time, which is the start of year 1; and its Unix seconds.
use Prim.Native.Nat.{ℕ, suc, ◌+◌, ◌-◌, ◌*◌, ◌/◌, ◌%◌, ◌^◌, ◌≤◌}
use mathlib.Core.Path.{◌≡◌}
use native.Mathlib.Omega.{arith}
use nimbus_fs.Prelude.Tests.{ltb, if◌then◌else◌}
use nimbus_fs.Prelude.Int.{ℤ, pos, negsuc, sub_ℕ}

abbrev pub Time : Type 0
Time = ℕ

abbrev pub second : ℕ
second = 1000000000

abbrev pub minute : ℕ
minute = 60000000000

abbrev pub hour : ℕ
hour = 3600000000000

-- The Unix epoch, in seconds since the zero Time.
abbrev pub epoch : ℕ
epoch = 62135596800

-- t.Unix()
unfoldable pub unix : Time → ℤ
unix t = sub_ℕ (t / second) epoch

-- time.Unix(n, 0). An instant before the zero Time is not represented.
unfoldable pub from_unix : ℤ → Time
from_unix (pos n) = (epoch + n) * second
from_unix (negsuc n) = (epoch - suc n) * second

-- The whole seconds of a time.
abbrev pub whole_seconds : Time → Time
whole_seconds t = t / second * second

pub from_unix-unix : (t : Time) → from_unix (unix t) ≡ whole_seconds t
unfolding from_unix unix
from_unix-unix t = ground arith

-- time.Duration(n) * time.Hour for a positive number of hours: an int64, which wraps around.
unfoldable pub hours : ℕ → ℤ
hours n = let d = n * hour % 2 ^ 64 in if ltb d (2 ^ 63) then pos d else negsuc (2 ^ 64 - d - 1)

-- t.Add(d). An instant before the zero Time is not represented.
abbrev pub add_duration : Time → ℤ → Time
add_duration t (pos n) = t + n
add_duration t (negsuc n) = t - suc n

-- The most hours that fit: 2 ^ 63 - 1 nanoseconds are less than an hour more.
abbrev pub max_hours : ℕ
max_hours = 2562047

pub hours_of_le : (n : ℕ) → n ≤ max_hours → hours n ≡ pos (n * hour)
unfolding hours
hours_of_le n h = ground arith
