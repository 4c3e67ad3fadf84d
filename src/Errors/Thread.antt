-- ===== src/Errors/Thread.antt =====
-- platform/common/ithread/ThreadError.hpp: the error codes, and their descriptions in the log. The description for a
-- value outside the enumeration is left out.
use Prim.Native.String.{String}
use enocean_core.Base.{◌≡◌, refl, List, [], ◌∷◌, some}
use enocean_core.ErrorHandler.{ErrorTraits}
use enocean_core.Errors.{find_by_name}

pub data ThreadError : Type 0 where
  invalid_parameter insufficient_memory resource_limit_exceeded permission_denied thread_not_found :
      ThreadError
  already_created deadlock invalid_thread deleted caller_error : ThreadError
  invalid_stack invalid_priority creation_failed unknown : ThreadError

unfoldable pub name : ThreadError → String
name invalid_parameter = "Invalid Parameter"
name insufficient_memory = "Insufficient Memory"
name resource_limit_exceeded = "Resource Limit Exceeded"
name permission_denied = "Permission Denied"
name thread_not_found = "Thread Not Found"
name already_created = "Thread Already Created"
name deadlock = "Deadlock Detected"
name invalid_thread = "Invalid Thread"
name deleted = "Thread Deleted"
name caller_error = "Caller Error"
name invalid_stack = "Invalid Stack"
name invalid_priority = "Invalid Priority"
name creation_failed = "Thread Creation Failed"
name unknown = "Unknown Error"

instance pub traits : ErrorTraits ThreadError
traits = record { name = name }

abbrev pub all : List ThreadError
all =
    invalid_parameter ∷ insufficient_memory ∷ resource_limit_exceeded ∷ permission_denied
    ∷ thread_not_found ∷ already_created ∷ deadlock ∷ invalid_thread ∷ deleted ∷ caller_error
    ∷ invalid_stack ∷ invalid_priority ∷ creation_failed ∷ unknown ∷ []

pub find_by_name-name : (e : ThreadError) → find_by_name name all (name e) ≡ some e
unfolding find_by_name name
find_by_name-name invalid_parameter = refl
find_by_name-name insufficient_memory = refl
find_by_name-name resource_limit_exceeded = refl
find_by_name-name permission_denied = refl
find_by_name-name thread_not_found = refl
find_by_name-name already_created = refl
find_by_name-name deadlock = refl
find_by_name-name invalid_thread = refl
find_by_name-name deleted = refl
find_by_name-name caller_error = refl
find_by_name-name invalid_stack = refl
find_by_name-name invalid_priority = refl
find_by_name-name creation_failed = refl
find_by_name-name unknown = refl
