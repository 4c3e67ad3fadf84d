-- ===== src/Mutex.antt =====
-- platform/common/imutex/IMutex.hpp: the front of a mutex, and the guard that holds it for a scope.
-- What the derived class does is an argument. `calls` are the calls of the operating system so far,
-- the newest first, which no code reads. A thread is known by a number.
pub mod Posix
pub mod Zephyr
use enocean_core.Base.{
  ℕ, Bool, true, false, not, ◌||◌, List, [], ◌∷◌, Option, some, none, if◌then◌else◌,
}
use enocean_core.ErrorHandler.{ErrorHandler, Logged, of_error, has_value}
use enocean_core.Errors.Mutex.{MutexError}
use enocean_core.Errors.Mutex
use enocean_core.Os.{Method}
use enocean_core.PlatformName.{copy_name}

pub record IMutex (Call : Type 0) : Type 0 where
  pub mutex_name : List ℕ
  pub initialized : Bool
  pub calls : List Call

abbrev pub Result : Type 0
Result = Logged (ErrorHandler (Unit {0}) MutexError)

module _ {Call : Type 0} where
  unfoldable pub construct : List ℕ → IMutex Call
  construct name = record { mutex_name = copy_name name; initialized = false; calls = [] }

  unfoldable pub init : Method (IMutex Call) Result → Method (IMutex Call) Result
  init do_init m =
      let (m', result) = do_init m in
      if not m.initialized
      then (record m' { initialized = m'.initialized || has_value result.0 }, result)
      else (
        m,
        of_error ⦃t = Mutex.traits⦄ MutexError.already_initialized "Mutex already initialized",
      )

  unfoldable pub lock : Method (IMutex Call) Result → Method (IMutex Call) Result
  lock do_lock m =
      if not m.initialized
      then (m, of_error ⦃t = Mutex.traits⦄ MutexError.not_initialized "Mutex not initialized")
      else do_lock m

  -- The result is whether the program goes on: `false` where `do_unlock` terminates it.
  unfoldable pub unlock : Method (IMutex Call) Bool → Method (IMutex Call) Bool
  unlock do_unlock m = if not m.initialized then (m, true) else do_unlock m

  -- IMutexLocker's constructor: the result is `locked_`.
  unfoldable pub construct_locker : Method (IMutex Call) Result → Method (IMutex Call) Bool
  unfolding lock
  construct_locker do_lock m = let (m', result) = lock do_lock m in (m', has_value result.0)

  -- Its destructor.
  unfoldable pub destruct_locker : Method (IMutex Call) Bool → Bool → Method (IMutex Call) Bool
  unfolding unlock
  destruct_locker do_unlock locked m = if locked then unlock do_unlock m else (m, true)
