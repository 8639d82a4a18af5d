-- ===== src/Time.antt =====
-- The clock of the host, merry/abs/merry_time.c on Linux. An `int` is its 32 bits. What the sleeps only
-- hand on to the host is left out, and nothing else in the sources calls these functions.
use merry_v.Common.{ℕ, ◌+◌, ◌-◌, ◌*◌, ◌%◌, ◌≤◌, ◌<◌, ◌≡◌, arith, ltb, if◌then◌else◌}

abbrev pub int_mod : ℕ
int_mod = 4294967296

-- `abs` of an `int`
abbrev pub int_abs : ℕ → ℕ
int_abs x = if ltb x 2147483648 then x else int_mod - x

abbrev pub int_sub : ℕ → ℕ → ℕ
int_sub a b = (a + int_mod - b) % int_mod

-- `MerryTime`
pub record Time : Type 0 where
  pub seconds : ℕ
  pub microseconds : ℕ

-- `merry_get_time`, from what gettimeofday gives.
unfoldable pub get_time : ℕ → ℕ → Time
get_time tv_sec tv_usec = record { seconds = tv_sec % int_mod; microseconds = tv_usec % int_mod }

unfoldable pub get_time_difference : Time → Time → Time
get_time_difference t1 t2 = record {
  seconds = int_abs (int_sub t2.seconds t1.seconds);
  microseconds = int_abs (int_sub t2.microseconds t1.microseconds);
}

-- `merry_get_time_difference_from`, from what gettimeofday gives now.
unfoldable pub get_time_difference_from : Time → ℕ → ℕ → Time
unfolding get_time get_time_difference
get_time_difference_from time tv_sec tv_usec = get_time_difference time (get_time tv_sec tv_usec)

abbrev pub total : Time → ℕ
total t = t.seconds * 1000000 + t.microseconds

-- From a time to a later one, both before 2 ^ 31 seconds and with less than a million microseconds, the
-- difference is right if the microseconds did not fall; if they did, it is too large by twice as
-- much as they fell.
pub get_time_difference-total :
    (t1 t2 : Time)
    → t1.seconds ≤ t2.seconds
    → t2.seconds < 2147483648
    → t1.microseconds < 1000000
    → t2.microseconds < 1000000
    → total t1 ≤ total t2
    → total (get_time_difference t1 t2)
      ≡ total t2 - total t1 + 2 * (t1.microseconds - t2.microseconds)
unfolding get_time_difference
get_time_difference-total t1 t2 order small in1 in2 later = ground arith
