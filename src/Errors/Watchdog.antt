-- ===== src/Errors/Watchdog.antt =====
-- boards/common/iwatchdog/WatchdogError.hpp: the error codes, and their descriptions in the log. The description for a
-- value outside the enumeration is left out.
use Prim.Native.String.{String}
use enocean_core.Base.{◌≡◌, refl, List, [], ◌∷◌, some}
use enocean_core.ErrorHandler.{ErrorTraits}
use enocean_core.Errors.{find_by_name}

pub data WatchdogError : Type 0 where
  invalid_parameter device_not_found device_not_ready not_supported hardware_error : WatchdogError
  already_initialized configuration_error timeout_out_of_range prescaler_error reload_error :
      WatchdogError

unfoldable pub name : WatchdogError → String
name invalid_parameter = "Invalid Parameter"
name device_not_found = "Device Not Found"
name device_not_ready = "Device Not Ready"
name not_supported = "Not Supported"
name hardware_error = "Hardware Error"
name already_initialized = "Already Initialized"
name configuration_error = "Configuration Error"
name timeout_out_of_range = "Timeout Out Of Range"
name prescaler_error = "Prescaler Error"
name reload_error = "Reload Error"

instance pub traits : ErrorTraits WatchdogError
traits = record { name = name }

abbrev pub all : List WatchdogError
all =
    invalid_parameter ∷ device_not_found ∷ device_not_ready ∷ not_supported ∷ hardware_error
    ∷ already_initialized ∷ configuration_error ∷ timeout_out_of_range ∷ prescaler_error
    ∷ reload_error ∷ []

pub find_by_name-name : (e : WatchdogError) → find_by_name name all (name e) ≡ some e
unfolding find_by_name name
find_by_name-name invalid_parameter = refl
find_by_name-name device_not_found = refl
find_by_name-name device_not_ready = refl
find_by_name-name not_supported = refl
find_by_name-name hardware_error = refl
find_by_name-name already_initialized = refl
find_by_name-name configuration_error = refl
find_by_name-name timeout_out_of_range = refl
find_by_name-name prescaler_error = refl
find_by_name-name reload_error = refl
