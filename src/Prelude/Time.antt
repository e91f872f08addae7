-- ===== src/Prelude/Time.antt =====
-- Go's `time` package, as far as the program uses it. An instant is a number of nanoseconds since
-- the zero `time.Time` (January 1 of year 1), so an instant before that has no counterpart here; a
-- `time.Duration` is a signed number of nanoseconds.
use Prim.Native.Nat.{ℕ, ◌+◌, ◌-◌, ◌*◌, ◌/◌, ◌<◌, min}
use mathlib.Core.Path.{◌≡◌}
use mathlib.Core.Bool.{Bool}
use native.Mathlib.Omega.{arith}
use vehicle_positions.Prelude.Tests.{ltb, leb, ◌==◌, if◌then◌else◌}
use vehicle_positions.Prelude.Int.{ℤ, pos, negsuc, pos_part, neg_part, sub_ℕ, ltb_ℤ, leb_ℤ}

abbrev pub Time : Type 0
Time = ℕ

abbrev pub Duration : Type 0
Duration = ℤ

abbrev pub second : ℕ
second = 1_000_000_000

abbrev pub minute : ℕ
minute = 60 * second

abbrev pub hour : ℕ
hour = 60 * minute

-- The largest `time.Duration`, 2 ^ 63 - 1 nanoseconds.
abbrev pub max_duration : ℕ
max_duration = 9_223_372_036_854_775_807

-- `a.Sub(b)`, which saturates at the ends of the int64 range.
unfoldable pub time_sub : Time → Time → Duration
time_sub a b =
    if leb b a then pos (min (a - b) max_duration) else negsuc (min (b - a - 1) max_duration)

-- `a.After(b)`, `a.Before(b)` and `a.IsZero()`.
abbrev pub after : Time → Time → Bool
after a b = ltb b a

abbrev pub before : Time → Time → Bool
before a b = ltb a b

abbrev pub is_zero : Time → Bool
is_zero t = t == 0

-- `t.Add(-d)` for a duration d that the clock has outlived.
abbrev pub time_back : Time → ℕ → Time
time_back t d = t - d

-- `t.Add(d)`
abbrev pub time_add : Time → Duration → Time
time_add t d = t + pos_part d - neg_part d

-- the seconds from the zero time to January 1 of 1970
abbrev pub unix_epoch : ℕ
unix_epoch = 62_135_596_800

-- `time.Unix(s, 0)`
abbrev pub time_unix : ℤ → Time
time_unix s = (unix_epoch + pos_part s - neg_part s) * second

-- `t.Unix()`
abbrev pub unix_of : Time → ℤ
unix_of t = sub_ℕ (t / second) unix_epoch

-- `-d`
abbrev pub neg_duration : Duration → Duration
neg_duration d = sub_ℕ (neg_part d) (pos_part d)

-- `d.Abs()`, which has no room for the opposite of the least duration
abbrev pub abs_duration : Duration → Duration
abs_duration d = pos (min (pos_part d + neg_part d) max_duration)

pub ltb_ℤ-time_sub : (a b d : ℕ) → d < max_duration → ltb_ℤ (pos d) (time_sub a b) ≡ ltb (b + d) a
unfolding time_sub
ltb_ℤ-time_sub a b d h = ground arith

pub leb_ℤ-time_sub : (a b d : ℕ) → d < max_duration → leb_ℤ (time_sub a b) (pos d) ≡ leb a (b + d)
unfolding time_sub
leb_ℤ-time_sub a b d h = ground arith

pub pos_leb-time_sub : (a b d : ℕ) → d < max_duration → leb_ℤ (pos d) (time_sub a b) ≡ leb (b + d) a
unfolding time_sub
pos_leb-time_sub a b d h = ground arith
