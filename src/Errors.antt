-- ===== src/Errors.antt =====
-- The enumerations of error codes, one module each, and the search for an error by its description.
pub mod Enocean
pub mod Ble
pub mod Crypto
pub mod Mutex
pub mod Semaphore
pub mod Thread
pub mod MessageQueue
pub mod Serial
pub mod Gpio
pub mod Watchdog
pub mod Names
use Prim.Native.String.{String}
use enocean_core.Base.{Option, none, some, List, [], ◌∷◌, if◌then◌else◌}
use text.Mathlib.Text.{◌==◌}

-- The first of the errors that has the description.
unfoldable pub find_by_name : {E : Type 0} → (E → String) → List E → String → Option E
find_by_name name [] text = none
find_by_name name (e ∷ errors) text =
    if name e == text then some e else find_by_name name errors text
