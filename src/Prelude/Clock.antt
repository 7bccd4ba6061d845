-- ===== src/Prelude/Clock.antt =====
-- time.Time and time.Duration. An instant counts the nanoseconds since the zero time (January 1 of
-- year 1), so 0 is the zero time; a duration is an `int64` of nanoseconds.
use Prim.Native.Nat.{ℕ, suc, ◌+◌, ◌-◌, ◌*◌, ◌≤◌}
use mathlib.Core.Path.{◌≡◌, refl}
use mathlib.Core.Bool.{Bool, false}
use mathlib.Core.Option.{Option, none, some}
use native.Mathlib.Omega.{arith}
use spectral_cloud.Prelude.Tests.{ltb}
use spectral_cloud.Prelude.Int.{ℤ, pos, negsuc, wrap, wrap_in_range}

abbrev pub Time : Type 0
Time = ℕ

abbrev pub Duration : Type 0
Duration = ℤ

-- t.Add(d). The clock stands past 1970, farther from 0 than any duration, so `-` does not stop.
unfoldable pub add_time : Time → Duration → Time
add_time t (pos d) = t + d
add_time t (negsuc d) = t - suc d

-- t.After(u)
abbrev pub after : Time → Time → Bool
after t u = ltb u t

-- t.Before(u)
abbrev pub before : Time → Time → Bool
before t u = ltb t u

-- p != nil && now.After(*p)
abbrev pub passed : Option Time → Time → Bool
passed none now = false
passed (some t) now = after now t

abbrev times_second : ℤ → ℤ
times_second (pos n) = pos (n * 1_000_000_000)
times_second (negsuc n) = negsuc (n * 1_000_000_000 + 999_999_999)

-- time.Duration(n) * time.Second, which wraps
unfoldable pub seconds : ℤ → Duration
unfolding wrap
seconds n = wrap (times_second n)

-- The number of whole seconds that an `int64` of nanoseconds can hold.
abbrev pub max_seconds : ℕ
max_seconds = 9_223_372_036

pub seconds_in_range : (n : ℕ) → n ≤ max_seconds → seconds (pos n) ≡ pos (n * 1_000_000_000)
unfolding seconds
seconds_in_range n h = wrap_in_range (n * 1_000_000_000) (omega arith)

-- One second more comes out negative.
seconds_wrap : seconds (pos (max_seconds + 1)) ≡ negsuc 9_223_372_036_709_551_615
unfolding seconds
seconds_wrap = refl
