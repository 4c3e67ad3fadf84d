-- ===== src/MessageQueue.antt =====
-- platform/posix_core/message_queue/MessageQueue.ipp: ms_to_timespec, the point in time at which a
-- send or a receive gives up. The clock's value is not negative. The clock and the greatest value of
-- `time_t` are parameters.
pub mod Deadline
pub mod Fifo
pub mod Posix
pub mod Zephyr
use enocean_core.Base.{ℕ, ◌+◌, ◌-◌, ◌*◌, ◌/◌, ◌%◌, ltb, leb, if◌then◌else◌}

pub record Timespec : Type 0 where
  pub tv_sec : ℕ
  pub tv_nsec : ℕ

-- The carry of a second, unless the seconds are at their greatest value.
unfoldable pub normalise : ℕ → ℕ → ℕ → Timespec
normalise max_sec sec nsec =
    if leb 1000000000 nsec
    then if ltb sec max_sec
      then record { tv_sec = sec + 1; tv_nsec = nsec - 1000000000 }
      else record { tv_sec = sec; tv_nsec = 999999999 }
    else record { tv_sec = sec; tv_nsec = nsec }

unfoldable pub ms_to_timespec : ℕ → Timespec → ℕ → Timespec
unfolding normalise
ms_to_timespec max_sec now timeout_ms =
    let add_sec = timeout_ms / 1000 in
    let add_nsec = timeout_ms % 1000 * 1000000 in
    let safe_sec = if ltb (max_sec - now.tv_sec) add_sec then max_sec - now.tv_sec else add_sec in
    if leb max_sec now.tv_sec
    then record { tv_sec = max_sec; tv_nsec = 999999999 }
    else normalise max_sec (now.tv_sec + safe_sec) (now.tv_nsec + add_nsec)
