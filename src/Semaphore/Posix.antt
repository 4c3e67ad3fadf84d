-- ===== src/Semaphore/Posix.antt =====
-- platform/posix_core/semaphore/Semaphore.cpp and Semaphore.hpp, over any behaviour of the calls of
-- the system.
pub mod Orderly
pub mod Limit
use Prim.Native.String.{String}
use enocean_core.Base.{ℕ, Bool, true, false, ◌∷◌, if◌then◌else◌}
use enocean_core.ErrorHandler.{ErrorHandler, of_value, of_error}
use enocean_core.Errors.Semaphore.{SemaphoreError}
use enocean_core.Errors.Semaphore
use enocean_core.Os.{
  Errno, einval, enomem, enospc, etimedout, eintr, eacces, eoverflow, ealready, Rc, success,
  failure, is_success, Os, Method, ◌>>=◌,
}
use enocean_core.Semaphore.{ISemaphore, Result}

-- `sem_init` carries the count that it is given.
pub data Call : Type 0 where
  sem_init : ℕ → Call
  sem_destroy sem_wait sem_timedwait sem_post : Call

abbrev pub PosixSemaphore : Type 0
PosixSemaphore = ISemaphore Call

unfoldable pub errno_to_semaphore_error : Errno → SemaphoreError
errno_to_semaphore_error einval = SemaphoreError.invalid_parameter
errno_to_semaphore_error enomem = SemaphoreError.insufficient_memory
errno_to_semaphore_error enospc = SemaphoreError.resource_limit_exceeded
errno_to_semaphore_error etimedout = SemaphoreError.timeout
errno_to_semaphore_error eintr = SemaphoreError.interrupted
errno_to_semaphore_error eacces = SemaphoreError.permission_denied
errno_to_semaphore_error eoverflow = SemaphoreError.count_overflow
errno_to_semaphore_error ealready = SemaphoreError.already_initialized
errno_to_semaphore_error _ = SemaphoreError.unknown

-- A failure reports `errno`.
abbrev pub result_of : Rc → String → Result
result_of success msg = of_value tt
result_of (failure e) msg = of_error ⦃t = Semaphore.traits⦄ (errno_to_semaphore_error e) msg

abbrev pub invoke : Os Call → Call → Method PosixSemaphore Rc
invoke os c s = let calls = c ∷ s.calls in (record s { calls = calls }, os calls)

-- What follows sem_init.
unfoldable pub conclude : Rc → Method PosixSemaphore Result
conclude success s = (record s { initialized = true }, of_value tt)
conclude (failure e) s = (s, result_of (failure e) "sem_init failed")

unfoldable pub init_fresh : Os Call → Method PosixSemaphore Result
unfolding conclude
init_fresh os s = (do result ← invoke os (sem_init s.init_count); conclude result) s

-- What follows sem_destroy at the start of do_init.
unfoldable pub init_again : Os Call → Rc → Method PosixSemaphore Result
unfolding init_fresh
init_again os success s = init_fresh os (record s { initialized = false })
init_again os (failure e) s = (s, result_of (failure e) "sem_destroy failed")

unfoldable pub do_init : Os Call → Method PosixSemaphore Result
unfolding init_fresh init_again
do_init os s =
    let again : PosixSemaphore × Result =
      (do destroy_result ← invoke os sem_destroy; init_again os destroy_result) s in
    if s.initialized then again else init_fresh os s

-- `timed` is whether there is a timeout.
unfoldable pub do_take : Os Call → Bool → Method PosixSemaphore Result
do_take os timed s =
    let (s', rc) = invoke os (if timed then sem_timedwait else sem_wait) s in
    (s', result_of rc "sem_wait/sem_timedwait failed")

-- `false` is std::terminate.
unfoldable pub do_give : Os Call → Method PosixSemaphore Bool
do_give os s = let (s', rc) = invoke os sem_post s in (s', is_success rc)

-- ~Semaphore: what it leaves of the calls.
unfoldable pub destruct : Os Call → PosixSemaphore → PosixSemaphore
destruct os s = if s.initialized then (invoke os sem_destroy s).0 else s
