-- ===== src/Errors/Enocean.antt =====
-- src/enocean/EnoceanError.hpp: the error codes, and their descriptions in the log. The description for a
-- value outside the enumeration is left out.
use Prim.Native.String.{String}
use enocean_core.Base.{◌≡◌, refl, List, [], ◌∷◌, some}
use enocean_core.ErrorHandler.{ErrorTraits}
use enocean_core.Errors.{find_by_name}

pub data EnoceanError : Type 0 where
  invalid_parameter not_initialised device_table_full device_not_found authentication_failed :
      EnoceanError
  replay_detected malformed_advertisement crypto_error unknown : EnoceanError

unfoldable pub name : EnoceanError → String
name invalid_parameter = "InvalidParameter"
name not_initialised = "NotInitialised"
name device_table_full = "DeviceTableFull"
name device_not_found = "DeviceNotFound"
name authentication_failed = "AuthenticationFailed"
name replay_detected = "ReplayDetected"
name malformed_advertisement = "MalformedAdvertisement"
name crypto_error = "CryptoError"
name unknown = "Unknown"

instance pub traits : ErrorTraits EnoceanError
traits = record { name = name }

abbrev pub all : List EnoceanError
all =
    invalid_parameter ∷ not_initialised ∷ device_table_full ∷ device_not_found
    ∷ authentication_failed ∷ replay_detected ∷ malformed_advertisement ∷ crypto_error ∷ unknown
    ∷ []

pub find_by_name-name : (e : EnoceanError) → find_by_name name all (name e) ≡ some e
unfolding find_by_name name
find_by_name-name invalid_parameter = refl
find_by_name-name not_initialised = refl
find_by_name-name device_table_full = refl
find_by_name-name device_not_found = refl
find_by_name-name authentication_failed = refl
find_by_name-name replay_detected = refl
find_by_name-name malformed_advertisement = refl
find_by_name-name crypto_error = refl
find_by_name-name unknown = refl
