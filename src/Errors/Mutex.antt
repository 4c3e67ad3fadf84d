-- ===== src/Errors/Mutex.antt =====
-- platform/common/imutex/MutexError.hpp: the error codes, and their descriptions in the log. The description for a
-- value outside the enumeration is left out.
use Prim.Native.String.{String}
use enocean_core.Base.{◌≡◌, refl, List, [], ◌∷◌, some}
use enocean_core.ErrorHandler.{ErrorTraits}
use enocean_core.Errors.{find_by_name}

pub data MutexError : Type 0 where
  invalid_parameter insufficient_memory resource_limit_exceeded timeout interrupted : MutexError
  not_initialized already_initialized deadlock invalid_mutex permission_denied : MutexError
  busy deleted wait_aborted caller_error unknown : MutexError

unfoldable pub name : MutexError → String
name invalid_parameter = "Invalid Parameter"
name insufficient_memory = "Insufficient Memory"
name resource_limit_exceeded = "Resource Limit Exceeded"
name timeout = "Operation Timeout"
name interrupted = "Operation Interrupted"
name not_initialized = "Mutex Not Initialized"
name already_initialized = "Mutex Already Initialized"
name deadlock = "Deadlock Detected"
name invalid_mutex = "Invalid Mutex"
name permission_denied = "Permission Denied"
name busy = "Mutex Busy"
name deleted = "Mutex Deleted"
name wait_aborted = "Wait Aborted"
name caller_error = "Caller Error"
name unknown = "Unknown Error"

instance pub traits : ErrorTraits MutexError
traits = record { name = name }

abbrev pub all : List MutexError
all =
    invalid_parameter ∷ insufficient_memory ∷ resource_limit_exceeded ∷ timeout ∷ interrupted
    ∷ not_initialized ∷ already_initialized ∷ deadlock ∷ invalid_mutex ∷ permission_denied ∷ busy
    ∷ deleted ∷ wait_aborted ∷ caller_error ∷ unknown ∷ []

pub find_by_name-name : (e : MutexError) → find_by_name name all (name e) ≡ some e
unfolding find_by_name name
find_by_name-name invalid_parameter = refl
find_by_name-name insufficient_memory = refl
find_by_name-name resource_limit_exceeded = refl
find_by_name-name timeout = refl
find_by_name-name interrupted = refl
find_by_name-name not_initialized = refl
find_by_name-name already_initialized = refl
find_by_name-name deadlock = refl
find_by_name-name invalid_mutex = refl
find_by_name-name permission_denied = refl
find_by_name-name busy = refl
find_by_name-name deleted = refl
find_by_name-name wait_aborted = refl
find_by_name-name caller_error = refl
find_by_name-name unknown = refl
