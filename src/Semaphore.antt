-- ===== src/Semaphore.antt =====
-- platform/common/isemaphore/ISemaphore.hpp: the front of a semaphore. What the derived class does is
-- an argument. `calls` are the calls of the operating system so far, the newest first, which no code
-- reads.
pub mod Posix
pub mod Zephyr
use enocean_core.Base.{ℕ, Bool, true, false, not, ◌||◌, List, [], if◌then◌else◌}
use enocean_core.ErrorHandler.{ErrorHandler, Logged, of_error, has_value}
use enocean_core.Errors.Semaphore.{SemaphoreError}
use enocean_core.Errors.Semaphore
use enocean_core.Os.{Method}
use enocean_core.PlatformName.{copy_name}

pub record ISemaphore (Call : Type 0) : Type 0 where
  pub sem_name : List ℕ
  pub init_count : ℕ
  pub count_limit : ℕ
  pub initialized : Bool
  pub calls : List Call

abbrev pub Result : Type 0
Result = Logged (ErrorHandler (Unit {0}) SemaphoreError)

module _ {Call : Type 0} where
  unfoldable pub construct : List ℕ → ℕ → ℕ → ISemaphore Call
  construct name initial_count max_limit = record {
    sem_name = copy_name name;
    init_count = initial_count;
    count_limit = max_limit;
    initialized = false;
    calls = [];
  }

  unfoldable pub init : Method (ISemaphore Call) Result → Method (ISemaphore Call) Result
  init do_init s =
      let (s', result) = do_init s in
      if not s.initialized
      then (record s' { initialized = s'.initialized || has_value result.0 }, result)
      else (
        s,
        of_error ⦃t = Semaphore.traits⦄ SemaphoreError.already_initialized
            "Semaphore already initialized",
      )

  unfoldable pub take : Method (ISemaphore Call) Result → Method (ISemaphore Call) Result
  take do_take s =
      if not s.initialized
      then (
        s,
        of_error ⦃t = Semaphore.traits⦄ SemaphoreError.not_initialized "Semaphore not initialized",
      )
      else do_take s

  -- The result is whether the program goes on: `false` where `do_give` terminates it.
  unfoldable pub give : Method (ISemaphore Call) Bool → Method (ISemaphore Call) Bool
  give do_give s = if not s.initialized then (s, true) else do_give s
