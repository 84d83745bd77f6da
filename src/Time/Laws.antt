-- ===== src/Time/Laws.antt =====
-- rtTime.c against the number of nanoseconds.
use rtmessage.Prelude.{
  ℕ, ◌+◌, ◌*◌, ◌%◌, ◌^◌, ◌<◌, ◌≡◌, ltb, leb, if◌then◌else◌, arith, Bool-cases, inl, inr,
}
use rtmessage.Time.{Time, second_ns, milli_ns, negative, later, elapsed, compare_times}

-- The nanoseconds are less than a second.
pub record IsNormal (t : Time) : Type 0 where
  pub below : t.tv_nsec < second_ns

abbrev pub total_ns : Time → ℕ
total_ns t = t.tv_sec * second_ns + t.tv_nsec

-- The time `ms` milliseconds after a normal time is normal, and later by exactly that much.
later-total_ns :
    (start : Time) (ms : ℕ)
    → IsNormal start
    → IsNormal (later start ms) × (total_ns (later start ms) ≡ total_ns start + ms * milli_ns)
unfolding later
later-total_ns start ms n =
    elim (Bool-cases (leb second_ns (start.tv_nsec + ms % 1000 * milli_ns))) [
      | inl over ↦ rw over (record { below = ground (arith, n.below) }, ground (arith, n.below))
      | inr fits ↦ rw fits (record { below = ground (arith, n.below) }, ground (arith, n.below))
    ]

-- Between a normal time and `ms` milliseconds later, below 2 ^ 31 of them, exactly `ms` have elapsed.
elapsed-later :
    (start : Time) (ms : ℕ) → IsNormal start → ms < 2 ^ 31 → elapsed start (later start ms) ≡ ms
unfolding later elapsed
elapsed-later start ms n small =
    elim (Bool-cases (leb second_ns (start.tv_nsec + ms % 1000 * milli_ns))) [
      | inl over ↦ rw over (ground (arith, n.below))
      | inr fits ↦ rw fits (ground (arith, n.below))
    ]

-- The comparison of two normal times is -1, 0 or 1 as the nanoseconds of the first are fewer, as many
-- or more.
compare_times-total_ns :
    (left right : Time)
    → IsNormal left
    → IsNormal right
    → compare_times left right ≡ (
        if ltb (total_ns left) (total_ns right)
        then negative 1
        else if ltb (total_ns right) (total_ns left)
        then 1
        else 0)
unfolding compare_times
compare_times-total_ns left right l r = ground (arith, l.below, r.below)
