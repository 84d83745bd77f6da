-- ===== src/Time.antt =====
-- rtTime.c: points in time and milliseconds. Seconds and nanoseconds are natural numbers; an `int` is
-- its bit pattern, below 2 ^ 32, and a difference of seconds is reduced to that width. The clock is
-- read only where the code is handed NULL, so its reading is an argument here.
pub mod Laws
use rtmessage.Prelude.{
  ℕ, ◌+◌, ◌-◌, ◌*◌, ◌/◌, ◌%◌, ◌^◌, Bool, true, false, ◌&&◌, ◌||◌, ltb, leb, ◌==◌, if◌then◌else◌,
}

-- rtTime_t, a struct timespec
pub record Time : Type 0 where
  pub tv_sec : ℕ
  pub tv_nsec : ℕ

abbrev pub second_ns : ℕ
second_ns = 1000000000

abbrev pub milli_ns : ℕ
milli_ns = 1000000

abbrev pub int_mod : ℕ
int_mod = 2 ^ 32

-- `-n` as an `int`
abbrev pub negative : ℕ → ℕ
negative n = (int_mod - 1) * n

-- rtTime_Later, for a delay that is not negative
unfoldable pub later : Time → ℕ → Time
later start ms =
    let sec = start.tv_sec + ms / 1000 in
    let nsec = start.tv_nsec + ms % 1000 * milli_ns in
    if leb second_ns nsec
    then record { tv_sec = sec + 1; tv_nsec = nsec - second_ns }
    else record { tv_sec = sec; tv_nsec = nsec }

-- rtTime_Elapsed
unfoldable pub elapsed : Time → Time → ℕ
elapsed start end =
    if leb start.tv_nsec end.tv_nsec
    then ((end.tv_sec + negative start.tv_sec) * 1000 + (end.tv_nsec - start.tv_nsec) / milli_ns)
      % int_mod
    else ((end.tv_sec + negative start.tv_sec + negative 1) * 1000
        + (second_ns + end.tv_nsec - start.tv_nsec) / milli_ns)
      % int_mod

-- rtTime_Compare
unfoldable pub compare_times : Time → Time → ℕ
compare_times left right =
    if ltb left.tv_sec right.tv_sec
      || (left.tv_sec == right.tv_sec && ltb left.tv_nsec right.tv_nsec)
    then negative 1
    else if ltb right.tv_sec left.tv_sec
        || (left.tv_sec == right.tv_sec && ltb right.tv_nsec left.tv_nsec)
    then 1
    else 0

-- rtTime_ToTimespec
unfoldable pub to_timespec : Time → Time
to_timespec t = t
