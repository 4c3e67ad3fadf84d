-- ===== src/Thread/Posix/Stack.antt =====
-- The stack size of a POSIX thread (platform/posix_core/thread/Thread.cpp).
use enocean_core.Base.{
  ℕ, ◌+◌, ◌*◌, ◌/◌, ◌%◌, ◌^◌, ◌<◌, ◌≤◌, ◌≡◌, ◌⊎◌, arith, max, if◌then◌else◌, ◌==◌,
}
use enocean_core.Thread.Posix.{minimum_stack_size, sanitize_stack_size}

-- For a size that is at least 8 below 2^64, the size that a thread gets is no smaller than the one asked
-- for nor than the least one, it exceeds the greater of the two by 7 bytes at most, and it is a
-- multiple of 8 or the least one.
pub sanitize_stack_size-le :
    (stack_min requested : ℕ)
    → requested + 7 < 2 ^ 64
    → (requested ≤ sanitize_stack_size stack_min requested)
      × (minimum_stack_size stack_min ≤ sanitize_stack_size stack_min requested)
      × (sanitize_stack_size stack_min requested ≤ max requested (minimum_stack_size stack_min) + 7)
      × ((sanitize_stack_size stack_min requested % 8 ≡ 0)
          ⊎ (sanitize_stack_size stack_min requested ≡ minimum_stack_size stack_min))
unfolding sanitize_stack_size
sanitize_stack_size-le stack_min requested h =
    (ground arith, ground arith, ground arith, aligned (minimum_stack_size stack_min) requested h)
  where
    aligned :
        (least requested : ℕ)
        → requested + 7 < 2 ^ 64
        → ((if requested == 0 then least else max ((requested + 7) % 2 ^ 64 / 8 * 8) least) % 8 ≡ 0)
          ⊎ ((if requested == 0 then least else max ((requested + 7) % 2 ^ 64 / 8 * 8) least)
              ≡ least)
    aligned least requested h = ground arith
