-- ===== src/Semaphore/Zephyr.antt =====
-- platform/zephyr_core/semaphore/Semaphore.cpp, over any behaviour of Zephyr's calls.
use enocean_core.Base.{ℕ, Bool, true, ◌∷◌, if◌then◌else◌}
use enocean_core.ErrorHandler.{of_value, of_error}
use enocean_core.Errors.Semaphore.{SemaphoreError}
use enocean_core.Errors.Semaphore
use enocean_core.Os.{
  Errno, einval, etimedout, ebusy, eagain, ealready, Rc, success, failure, Os, Method, ◌>>=◌,
}
use enocean_core.Semaphore.{ISemaphore, Result}

-- `k_sem_init` carries the count and the limit that it is given.
pub data Call : Type 0 where
  k_sem_init : ℕ → ℕ → Call
  k_sem_take k_sem_give : Call

abbrev pub ZephyrSemaphore : Type 0
ZephyrSemaphore = ISemaphore Call

unfoldable pub errno_to_semaphore_error : Errno → SemaphoreError
errno_to_semaphore_error einval = SemaphoreError.invalid_parameter
errno_to_semaphore_error etimedout = SemaphoreError.timeout
errno_to_semaphore_error ebusy = SemaphoreError.timeout
errno_to_semaphore_error eagain = SemaphoreError.timeout
errno_to_semaphore_error ealready = SemaphoreError.already_initialized
errno_to_semaphore_error _ = SemaphoreError.unknown

abbrev pub invoke : Os Call → Call → Method ZephyrSemaphore Rc
invoke os c s = let calls = c ∷ s.calls in (record s { calls = calls }, os calls)

-- What follows k_sem_init.
unfoldable pub conclude : Rc → Method ZephyrSemaphore Result
unfolding errno_to_semaphore_error
conclude success s = (record s { initialized = true }, of_value tt)
conclude (failure e) s =
    (s, of_error ⦃t = Semaphore.traits⦄ (errno_to_semaphore_error e) "k_sem_init failed")

unfoldable pub do_init : Os Call → Method ZephyrSemaphore Result
unfolding conclude
do_init os s =
    let fresh : ZephyrSemaphore × Result =
      (do result ← invoke os (k_sem_init s.init_count s.count_limit); conclude result) s in
    if s.initialized
    then (
      s,
      of_error ⦃t = Semaphore.traits⦄ SemaphoreError.already_initialized
          "Semaphore already initialized",
    )
    else fresh

abbrev pub take_result : Rc → Result
take_result success = of_value tt
take_result (failure e) =
    of_error ⦃t = Semaphore.traits⦄ (errno_to_semaphore_error e) "k_sem_take failed"

unfoldable pub do_take : Os Call → Method ZephyrSemaphore Result
do_take os s = let (s', rc) = invoke os k_sem_take s in (s', take_result rc)

unfoldable pub do_give : Os Call → Method ZephyrSemaphore Bool
do_give os s = let (s', rc) = invoke os k_sem_give s in (s', true)
