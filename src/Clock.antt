-- ===== src/Clock.antt =====
-- Go's time.Time and time.Duration, as the program uses them. An instant is its distance in
-- nanoseconds from the zero Time (year 1, UTC), so earlier instants are left out; a duration is a
-- signed number of nanoseconds, and the distance of two instants saturates at the int64 limits.
use howdah.Base.{
  ℕ, suc, ◌+◌, ◌-◌, ◌*◌, ◌/◌, ◌%◌, ◌^◌, ◌≤◌, ◌<◌, ◌≡◌, ◌↔◌, Bool, true, false, ltb, min, arith,
  ◌==◌, nat_eq,
}
use howdah.Base.Int.{ℤ, pos, negsuc, sub_ℕ, int_leb}

abbrev pub Time : Type 0
Time = ℕ

abbrev pub Duration : Type 0
Duration = ℤ

-- The zero Time, and `t.IsZero()`.
abbrev pub zero_time : Time
zero_time = 0

abbrev pub is_zero_time : Time → Bool
is_zero_time t = t == 0

-- `t.After(u)` and `t.Before(u)`
abbrev pub after : Time → Time → Bool
after t u = ltb u t

abbrev pub before : Time → Time → Bool
before t u = ltb t u

abbrev pub add_duration : Time → Duration → Time
add_duration t (pos n) = t + n
add_duration t (negsuc n) = t - suc n

abbrev pub saturate : ℤ → Duration
saturate (pos n) = pos (min n (2 ^ 63 - 1))
saturate (negsuc n) = negsuc (min n (2 ^ 63 - 1))

-- `t.Sub(u)`; `time.Since(u)` is `time_sub now u`, `time.Until(t)` is `time_sub t now`.
unfoldable pub time_sub : Time → Time → Duration
time_sub t u = saturate (sub_ℕ t u)

abbrev pub second : ℕ
second = 1_000_000_000

abbrev pub millisecond : ℕ
millisecond = 1_000_000

abbrev pub minute : ℕ
minute = 60 * second

abbrev pub hour : ℕ
hour = 3600 * second

abbrev pub is_positive : Duration → Bool
is_positive (pos n) = ltb 0 n
is_positive (negsuc n) = false

-- `t.Unix()`: the seconds since 1970.
abbrev pub unix : Time → ℤ
unix t = sub_ℕ (t / second) 62_135_596_800

-- `t.Nanosecond()`
abbrev pub nanosecond : Time → ℕ
nanosecond t = t % second

-- A positive age limit that fits a duration is met exactly when the limit's instant has come.
pub time_sub-le :
    (now issued age : ℕ)
    → 0 < age
    → age < 2 ^ 63
    → (int_leb (pos age) (time_sub now issued) ≡ true) ↔ (issued + age ≤ now)
unfolding time_sub
time_sub-le now issued age p q = ground arith
