-- ===== src/Errors/Gpio.antt =====
-- boards/common/igpio/GpioError.hpp: the error codes, and their descriptions in the log. The description for a
-- value outside the enumeration is left out.
use Prim.Native.String.{String}
use enocean_core.Base.{◌≡◌, refl, List, [], ◌∷◌, some}
use enocean_core.ErrorHandler.{ErrorTraits}
use enocean_core.Errors.{find_by_name}

pub data GpioError : Type 0 where
  invalid_parameter invalid_pin invalid_mode io_error device_not_available : GpioError
  insufficient_memory timeout pin_in_use permission_denied busy : GpioError
  not_supported hardware_fault unknown : GpioError

unfoldable pub name : GpioError → String
name invalid_parameter = "Invalid Parameter"
name invalid_pin = "Invalid Pin"
name invalid_mode = "Invalid Mode"
name io_error = "I/O Error"
name device_not_available = "Device Not Available"
name insufficient_memory = "Insufficient Memory"
name timeout = "Timeout"
name pin_in_use = "Pin In Use"
name permission_denied = "Permission Denied"
name busy = "Busy"
name not_supported = "Not Supported"
name hardware_fault = "Hardware Fault"
name unknown = "Unknown Error"

instance pub traits : ErrorTraits GpioError
traits = record { name = name }

abbrev pub all : List GpioError
all =
    invalid_parameter ∷ invalid_pin ∷ invalid_mode ∷ io_error ∷ device_not_available
    ∷ insufficient_memory ∷ timeout ∷ pin_in_use ∷ permission_denied ∷ busy ∷ not_supported
    ∷ hardware_fault ∷ unknown ∷ []

pub find_by_name-name : (e : GpioError) → find_by_name name all (name e) ≡ some e
unfolding find_by_name name
find_by_name-name invalid_parameter = refl
find_by_name-name invalid_pin = refl
find_by_name-name invalid_mode = refl
find_by_name-name io_error = refl
find_by_name-name device_not_available = refl
find_by_name-name insufficient_memory = refl
find_by_name-name timeout = refl
find_by_name-name pin_in_use = refl
find_by_name-name permission_denied = refl
find_by_name-name busy = refl
find_by_name-name not_supported = refl
find_by_name-name hardware_fault = refl
find_by_name-name unknown = refl
