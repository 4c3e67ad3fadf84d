-- ===== src/MessageQueue/Deadline.antt =====
-- The deadline that ms_to_timespec (platform/posix_core/message_queue/MessageQueue.ipp) computes.
use enocean_core.Base.{ℕ, ◌+◌, ◌*◌, ◌/◌, ◌≤◌, ◌<◌, ◌≡◌, arith}
use enocean_core.MessageQueue.{Timespec, normalise, ms_to_timespec}

abbrev pub nanoseconds : Timespec → ℕ
nanoseconds t = t.tv_sec * 1000000000 + t.tv_nsec

-- From any clock value with fewer than 10^9 nanoseconds, the deadline has fewer than 10^9 nanoseconds
-- and no more seconds than `time_t` holds.
pub ms_to_timespec-lt :
    (max_sec : ℕ) (now : Timespec) (timeout_ms : ℕ)
    → now.tv_nsec < 1000000000
    → ((ms_to_timespec max_sec now timeout_ms).tv_nsec < 1000000000)
      × ((ms_to_timespec max_sec now timeout_ms).tv_sec ≤ max_sec)
unfolding ms_to_timespec normalise
ms_to_timespec-lt max_sec now timeout_ms h = (ground arith, ground arith)

-- As long as the seconds stay below the greatest value of `time_t`, the deadline is exactly the timeout
-- later than the clock.
pub ms_to_timespec-nanoseconds :
    (max_sec : ℕ) (now : Timespec) (timeout_ms : ℕ)
    → now.tv_sec + timeout_ms / 1000 < max_sec
    → nanoseconds (ms_to_timespec max_sec now timeout_ms) ≡ nanoseconds now + timeout_ms * 1000000
unfolding ms_to_timespec normalise
ms_to_timespec-nanoseconds max_sec now timeout_ms h = ground arith
