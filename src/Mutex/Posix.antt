-- ===== src/Mutex/Posix.antt =====
-- platform/posix_core/mutex/Mutex.cpp, over any behaviour of the pthread calls. A call of lock or unlock
-- carries the thread that makes it.
pub mod Orderly
pub mod Owner
use Prim.Native.String.{String}
use enocean_core.Base.{ℕ, Bool, true, false, ◌∷◌, if◌then◌else◌}
use enocean_core.ErrorHandler.{ErrorHandler, of_value, of_error}
use enocean_core.Errors.Mutex.{MutexError}
use enocean_core.Errors.Mutex
use enocean_core.Os.{
  Errno, einval, enomem, eagain, etimedout, eintr, edeadlk, ebusy, eperm, ealready, Rc, success,
  failure, is_success, Os, Method, ◌>>=◌, give,
}
use enocean_core.Mutex.{IMutex, Result}

pub data Call : Type 0 where
  attr_init attr_settype attr_destroy mutex_init mutex_destroy : Call
  mutex_lock mutex_timedlock mutex_unlock : ℕ → Call

abbrev pub PosixMutex : Type 0
PosixMutex = IMutex Call

unfoldable pub errno_to_mutex_error : Errno → MutexError
errno_to_mutex_error einval = MutexError.invalid_parameter
errno_to_mutex_error enomem = MutexError.insufficient_memory
errno_to_mutex_error eagain = MutexError.resource_limit_exceeded
errno_to_mutex_error etimedout = MutexError.timeout
errno_to_mutex_error eintr = MutexError.interrupted
errno_to_mutex_error edeadlk = MutexError.deadlock
errno_to_mutex_error ebusy = MutexError.busy
errno_to_mutex_error eperm = MutexError.permission_denied
errno_to_mutex_error ealready = MutexError.already_initialized
errno_to_mutex_error _ = MutexError.unknown

-- The error of a return code; `success` is not passed to it.
abbrev pub error_of : Rc → MutexError
error_of success = MutexError.unknown
error_of (failure e) = errno_to_mutex_error e

abbrev pub failed : Rc → String → Result
failed rc msg = of_error ⦃t = Mutex.traits⦄ (error_of rc) msg

abbrev pub invoke : Os Call → Call → Method PosixMutex Rc
invoke os c m = let calls = c ∷ m.calls in (record m { calls = calls }, os calls)

abbrev pub set_initialized : Bool → Method PosixMutex (Unit {0})
set_initialized state m = (record m { initialized = state }, tt)

-- What follows pthread_mutexattr_destroy, from what it and pthread_mutex_init returned.
unfoldable pub conclude : Os Call → Rc → Rc → Method PosixMutex Result
conclude os success success = do _ ← set_initialized true; give (of_value tt)
conclude os (failure e) success = give (failed (failure e) "pthread_mutex_init failed")
conclude os success (failure e) = do
  _ ← invoke os mutex_destroy
  give (failed (failure e) "pthread_mutexattr_destroy failed")
conclude os (failure _) (failure e) = give (failed (failure e) "pthread_mutexattr_destroy failed")

-- What follows pthread_mutexattr_settype.
unfoldable pub init_with_attr : Os Call → Rc → Method PosixMutex Result
unfolding conclude
init_with_attr os success = do
  init_rc ← invoke os mutex_init
  attr_destroy_rc ← invoke os attr_destroy
  conclude os init_rc attr_destroy_rc
init_with_attr os (failure e) = do
  _ ← invoke os attr_destroy
  give (failed (failure e) "pthread_mutexattr_settype failed")

-- What follows pthread_mutexattr_init.
unfoldable pub init_attr : Os Call → Rc → Method PosixMutex Result
unfolding init_with_attr
init_attr os success = do set_type_rc ← invoke os attr_settype; init_with_attr os set_type_rc
init_attr os (failure e) = give (failed (failure e) "pthread_mutexattr_init failed")

unfoldable pub init_fresh : Os Call → Method PosixMutex Result
unfolding init_attr
init_fresh os = do attr_init_rc ← invoke os attr_init; init_attr os attr_init_rc

-- What follows pthread_mutex_destroy at the start of do_init.
unfoldable pub init_again : Os Call → Rc → Method PosixMutex Result
unfolding init_fresh
init_again os success = do _ ← set_initialized false; init_fresh os
init_again os (failure e) = give (failed (failure e) "pthread_mutex_destroy failed")

unfoldable pub do_init : Os Call → Method PosixMutex Result
unfolding init_fresh init_again
do_init os m =
    let again : PosixMutex × Result =
      (do destroy_rc ← invoke os mutex_destroy; init_again os destroy_rc) m in
    if m.initialized then again else init_fresh os m

-- `timed` is whether there is a timeout.
unfoldable pub do_lock : Os Call → ℕ → Bool → Method PosixMutex Result
do_lock os thread timed = do
  result ← invoke os (if timed then mutex_timedlock thread else mutex_lock thread)
  give (
      if is_success result
      then of_value tt
      else failed result
          (if timed then "pthread_mutex_timedlock failed" else "pthread_mutex_lock failed"))

-- `false` is std::terminate.
unfoldable pub do_unlock : Os Call → ℕ → Method PosixMutex Bool
do_unlock os thread = do rc ← invoke os (mutex_unlock thread); give (is_success rc)
