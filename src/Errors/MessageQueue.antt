-- ===== src/Errors/MessageQueue.antt =====
-- platform/common/imessage_queue/MessageQueueError.hpp: the error codes, and their descriptions in the log. The description for a
-- value outside the enumeration is left out.
use Prim.Native.String.{String}
use enocean_core.Base.{◌≡◌, refl, List, [], ◌∷◌, some}
use enocean_core.ErrorHandler.{ErrorTraits}
use enocean_core.Errors.{find_by_name}

pub data MessageQueueError : Type 0 where
  invalid_parameter insufficient_memory resource_limit_exceeded timeout interrupted :
      MessageQueueError
  queue_full queue_empty invalid_queue already_initialized permission_denied : MessageQueueError
  already_exists unknown : MessageQueueError

unfoldable pub name : MessageQueueError → String
name invalid_parameter = "Invalid Parameter"
name insufficient_memory = "Insufficient Memory"
name resource_limit_exceeded = "Resource Limit Exceeded"
name timeout = "Operation Timeout"
name interrupted = "Operation Interrupted"
name queue_full = "Queue Full"
name queue_empty = "Queue Empty"
name invalid_queue = "Invalid Queue"
name already_initialized = "Already Initialized"
name permission_denied = "Permission Denied"
name already_exists = "Already Exists"
name unknown = "Unknown Error"

instance pub traits : ErrorTraits MessageQueueError
traits = record { name = name }

abbrev pub all : List MessageQueueError
all =
    invalid_parameter ∷ insufficient_memory ∷ resource_limit_exceeded ∷ timeout ∷ interrupted
    ∷ queue_full ∷ queue_empty ∷ invalid_queue ∷ already_initialized ∷ permission_denied
    ∷ already_exists ∷ unknown ∷ []

pub find_by_name-name : (e : MessageQueueError) → find_by_name name all (name e) ≡ some e
unfolding find_by_name name
find_by_name-name invalid_parameter = refl
find_by_name-name insufficient_memory = refl
find_by_name-name resource_limit_exceeded = refl
find_by_name-name timeout = refl
find_by_name-name interrupted = refl
find_by_name-name queue_full = refl
find_by_name-name queue_empty = refl
find_by_name-name invalid_queue = refl
find_by_name-name already_initialized = refl
find_by_name-name permission_denied = refl
find_by_name-name already_exists = refl
find_by_name-name unknown = refl
