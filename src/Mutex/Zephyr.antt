-- ===== src/Mutex/Zephyr.antt =====
-- platform/zephyr_core/mutex/Mutex.cpp, over any behaviour of Zephyr's calls.
use enocean_core.Base.{ℕ, Bool, true, ◌∷◌, if◌then◌else◌}
use enocean_core.ErrorHandler.{of_value, of_error}
use enocean_core.Errors.Mutex.{MutexError}
use enocean_core.Errors.Mutex
use enocean_core.Os.{
  Errno, einval, etimedout, ebusy, edeadlk, ealready, Rc, success, failure, Os, Method, ◌>>=◌,
}
use enocean_core.Mutex.{IMutex, Result}

pub data Call : Type 0 where
  k_mutex_init : Call
  k_mutex_lock k_mutex_unlock : ℕ → Call

abbrev pub ZephyrMutex : Type 0
ZephyrMutex = IMutex Call

unfoldable pub errno_to_mutex_error : Errno → MutexError
errno_to_mutex_error einval = MutexError.invalid_parameter
errno_to_mutex_error etimedout = MutexError.timeout
errno_to_mutex_error ebusy = MutexError.timeout
errno_to_mutex_error edeadlk = MutexError.deadlock
errno_to_mutex_error ealready = MutexError.already_initialized
errno_to_mutex_error _ = MutexError.unknown

abbrev pub invoke : Os Call → Call → Method ZephyrMutex Rc
invoke os c m = let calls = c ∷ m.calls in (record m { calls = calls }, os calls)

-- What follows k_mutex_init.
unfoldable pub conclude : Rc → Method ZephyrMutex Result
unfolding errno_to_mutex_error
conclude success m = (record m { initialized = true }, of_value tt)
conclude (failure e) m =
    (m, of_error ⦃t = Mutex.traits⦄ (errno_to_mutex_error e) "k_mutex_init failed")

unfoldable pub do_init : Os Call → Method ZephyrMutex Result
unfolding conclude
do_init os m =
    let fresh : ZephyrMutex × Result = (do result ← invoke os k_mutex_init; conclude result) m in
    if m.initialized
    then (m, of_error ⦃t = Mutex.traits⦄ MutexError.already_initialized "Mutex already initialized")
    else fresh

abbrev pub lock_result : Rc → Result
lock_result success = of_value tt
lock_result (failure e) = of_error ⦃t = Mutex.traits⦄ (errno_to_mutex_error e) "k_mutex_lock failed"

-- The timeout is the system's business.
unfoldable pub do_lock : Os Call → ℕ → Method ZephyrMutex Result
do_lock os thread m = let (m', rc) = invoke os (k_mutex_lock thread) m in (m', lock_result rc)

-- What k_mutex_unlock returns is not looked at.
unfoldable pub do_unlock : Os Call → ℕ → Method ZephyrMutex Bool
do_unlock os thread m = let (m', rc) = invoke os (k_mutex_unlock thread) m in (m', true)
