-- ===== src/Errors/Serial.antt =====
-- boards/common/iserial/SerialError.hpp: the error codes, and their descriptions in the log. The description for a
-- value outside the enumeration is left out.
use Prim.Native.String.{String}
use enocean_core.Base.{◌≡◌, refl, List, [], ◌∷◌, some}
use enocean_core.ErrorHandler.{ErrorTraits}
use enocean_core.Errors.{find_by_name}

pub data SerialError : Type 0 where
  invalid_parameter insufficient_memory device_not_found io_error invalid_configuration :
      SerialError
  timeout device_busy not_initialized already_initialized initialization_failed : SerialError
  transmit_error receive_error overrun_error framing_error parity_error : SerialError
  noise_error break_condition dma_error hardware_fault : SerialError

unfoldable pub name : SerialError → String
name invalid_parameter = "Invalid Parameter"
name insufficient_memory = "Insufficient Memory"
name device_not_found = "Device Not Found"
name io_error = "I/O Error"
name invalid_configuration = "Invalid Configuration"
name timeout = "Timeout"
name device_busy = "Device Busy"
name not_initialized = "Not Initialized"
name already_initialized = "Already Initialized"
name initialization_failed = "Initialization Failed"
name transmit_error = "Transmit Error"
name receive_error = "Receive Error"
name overrun_error = "Overrun Error"
name framing_error = "Framing Error"
name parity_error = "Parity Error"
name noise_error = "Noise Error"
name break_condition = "Break Condition"
name dma_error = "DMA Error"
name hardware_fault = "Hardware Fault"

instance pub traits : ErrorTraits SerialError
traits = record { name = name }

abbrev pub all : List SerialError
all =
    invalid_parameter ∷ insufficient_memory ∷ device_not_found ∷ io_error ∷ invalid_configuration
    ∷ timeout ∷ device_busy ∷ not_initialized ∷ already_initialized ∷ initialization_failed
    ∷ transmit_error ∷ receive_error ∷ overrun_error ∷ framing_error ∷ parity_error ∷ noise_error
    ∷ break_condition ∷ dma_error ∷ hardware_fault ∷ []

pub find_by_name-name : (e : SerialError) → find_by_name name all (name e) ≡ some e
unfolding find_by_name name
find_by_name-name invalid_parameter = refl
find_by_name-name insufficient_memory = refl
find_by_name-name device_not_found = refl
find_by_name-name io_error = refl
find_by_name-name invalid_configuration = refl
find_by_name-name timeout = refl
find_by_name-name device_busy = refl
find_by_name-name not_initialized = refl
find_by_name-name already_initialized = refl
find_by_name-name initialization_failed = refl
find_by_name-name transmit_error = refl
find_by_name-name receive_error = refl
find_by_name-name overrun_error = refl
find_by_name-name framing_error = refl
find_by_name-name parity_error = refl
find_by_name-name noise_error = refl
find_by_name-name break_condition = refl
find_by_name-name dma_error = refl
find_by_name-name hardware_fault = refl
