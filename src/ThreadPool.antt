-- ===== src/ThreadPool.antt =====
-- rtThreadPool.c: the two time functions of `rtThreadPool_StopAllThread`.
pub mod Clock
pub mod Workers
pub mod Queue
pub mod Drain
pub mod Races
use rtmessage.Prelude.{ℕ, ◌+◌, ◌-◌, ◌*◌, ◌/◌, ◌%◌, leb, if◌then◌else◌}
use rtmessage.Time.{Time, second_ns, milli_ns, int_mod, negative}

-- timeAddMS, for a delay that is not negative
unfoldable pub time_add_ms : Time → ℕ → Time
time_add_ms ts_in ms =
    let sec = ts_in.tv_sec + ms / 1000 in
    let nsec = ts_in.tv_nsec + ms % 1000 * milli_ns in
    if leb second_ns nsec
    then record { tv_sec = sec + 1; tv_nsec = nsec - second_ns }
    else record { tv_sec = sec; tv_nsec = nsec }

-- timeGetElapsed, with the clock's reading as an argument
unfoldable pub time_get_elapsed : Time → Time → ℕ
time_get_elapsed start_time now =
    if leb start_time.tv_nsec now.tv_nsec
    then ((now.tv_sec + negative start_time.tv_sec) * 1000
        + (now.tv_nsec - start_time.tv_nsec) / milli_ns)
      % int_mod
    else ((now.tv_sec + negative start_time.tv_sec + negative 1) * 1000
        + (second_ns + now.tv_nsec - start_time.tv_nsec))
      % int_mod
