-- ===== src/Errors/Ble.antt =====
-- platform/common/ible/BleError.hpp: the error codes, and their descriptions in the log. The description for a
-- value outside the enumeration is left out.
use Prim.Native.String.{String}
use enocean_core.Base.{◌≡◌, refl, List, [], ◌∷◌, some}
use enocean_core.ErrorHandler.{ErrorTraits}
use enocean_core.Errors.{find_by_name}

pub data BleError : Type 0 where
  already_initialised not_initialised adapter_not_found permission_denied scan_start_failed :
      BleError
  scan_stop_failed invalid_callback system_error : BleError

unfoldable pub name : BleError → String
name already_initialised = "AlreadyInitialised"
name not_initialised = "NotInitialised"
name adapter_not_found = "AdapterNotFound"
name permission_denied = "PermissionDenied"
name scan_start_failed = "ScanStartFailed"
name scan_stop_failed = "ScanStopFailed"
name invalid_callback = "InvalidCallback"
name system_error = "SystemError"

instance pub traits : ErrorTraits BleError
traits = record { name = name }

abbrev pub all : List BleError
all =
    already_initialised ∷ not_initialised ∷ adapter_not_found ∷ permission_denied
    ∷ scan_start_failed ∷ scan_stop_failed ∷ invalid_callback ∷ system_error ∷ []

pub find_by_name-name : (e : BleError) → find_by_name name all (name e) ≡ some e
unfolding find_by_name name
find_by_name-name already_initialised = refl
find_by_name-name not_initialised = refl
find_by_name-name adapter_not_found = refl
find_by_name-name permission_denied = refl
find_by_name-name scan_start_failed = refl
find_by_name-name scan_stop_failed = refl
find_by_name-name invalid_callback = refl
find_by_name-name system_error = refl
