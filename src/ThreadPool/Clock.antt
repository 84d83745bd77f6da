-- ===== src/ThreadPool/Clock.antt =====
-- The elapsed time of rtThreadPool.c beside that of rtTime.c.
use rtmessage.Prelude.{ℕ, ◌+◌, ◌*◌, ◌%◌, ◌<◌, ◌≡◌, Bool-cases, inl, inr, leb, arith, if◌then◌else◌}
use rtmessage.Time.{Time, second_ns, milli_ns, elapsed}
use rtmessage.Time.Laws.{IsNormal}
use rtmessage.ThreadPool.{time_add_ms, time_get_elapsed}

-- After a wait of less than a second from a normal time, `timeGetElapsed` answers the milliseconds
-- if the wait stays within a second of the clock, and as many nanoseconds if it does not, where
-- `rtTime_Elapsed` answers the milliseconds in either case.
time_get_elapsed-time_add_ms :
    (start : Time) (ms : ℕ)
    → IsNormal start
    → ms < 1000
    → (time_get_elapsed start (time_add_ms start ms)
        ≡ (if leb second_ns (start.tv_nsec + ms * milli_ns) then ms * milli_ns else ms))
      × (elapsed start (time_add_ms start ms) ≡ ms)
unfolding time_get_elapsed time_add_ms elapsed
time_get_elapsed-time_add_ms start ms n small =
    elim (Bool-cases (leb second_ns (start.tv_nsec + ms % 1000 * milli_ns))) [
      | inl over ↦ rw over (ground (arith, n.below), ground (arith, n.below))
      | inr fits ↦ rw fits (ground (arith, n.below), ground (arith, n.below))
    ]
