-- ===== src/Board/Gpio.antt =====
-- boards/zephyr/gpio/Gpio.cpp, with the types of boards/common/igpio/IGpio.hpp. Whether the device is
-- ready and what Zephyr's calls return are parameters. In boards/posix/gpio/Gpio.cpp set_mode always
-- succeeds, read gives Low, and write does nothing but log.
use enocean_core.Base.{ℕ, zero, Bool, true, false, not, Option, none, some, bit_or, if◌then◌else◌}
use enocean_core.Base.Int.{ℤ, pos, negsuc}
use enocean_core.ErrorHandler.{ErrorHandler, Logged, of_value, of_error}
use enocean_core.Errors.Gpio.{GpioError}
use enocean_core.Errors.Gpio
use enocean_core.Os.{Errno, einval, enodev, eio, ebusy, enotsup, Rc, success, failure}

pub data GpioMode : Type 0 where
  input output analog input_pullup input_pulldown output_pullup output_pulldown : GpioMode
  alt_function : GpioMode

pub data DigitalState : Type 0 where
  low high : DigitalState

abbrev pub Result : Type 0
Result = Logged (ErrorHandler (Unit {0}) GpioError)

-- GPIO_INPUT, GPIO_OUTPUT, GPIO_PULL_UP and GPIO_PULL_DOWN.
pub record Flags : Type 0 where
  pub gpio_input : ℕ
  pub gpio_output : ℕ
  pub pull_up : ℕ
  pub pull_down : ℕ

unfoldable pub errno_to_gpio_error : Errno → GpioError
errno_to_gpio_error einval = GpioError.invalid_parameter
errno_to_gpio_error enodev = GpioError.device_not_available
errno_to_gpio_error eio = GpioError.io_error
errno_to_gpio_error ebusy = GpioError.busy
errno_to_gpio_error enotsup = GpioError.not_supported
errno_to_gpio_error _ = GpioError.unknown

-- `none` for a mode that has no flags.
unfoldable pub flags_of : Flags → GpioMode → Option ℕ
flags_of f input = some f.gpio_input
flags_of f output = some f.gpio_output
flags_of f input_pullup = some (bit_or f.gpio_input f.pull_up)
flags_of f input_pulldown = some (bit_or f.gpio_input f.pull_down)
flags_of f output_pullup = some (bit_or f.gpio_output f.pull_up)
flags_of f output_pulldown = some (bit_or f.gpio_output f.pull_down)
flags_of f _ = none

abbrev pub configured : Rc → Result
configured success = of_value tt
configured (failure e) =
    of_error ⦃t = Gpio.traits⦄ (errno_to_gpio_error e) "gpio_pin_configure_dt failed"

-- `configure` is gpio_pin_configure_dt.
unfoldable pub do_set_mode : Flags → Bool → (ℕ → Rc) → GpioMode → Result
unfolding flags_of
do_set_mode f ready configure mode =
    let set : Result = elim (flags_of f mode) [
      | none ↦ of_error ⦃t = Gpio.traits⦄ GpioError.invalid_mode "Invalid GPIO mode"
      | some flags ↦ configured (configure flags)
    ] in
    if not ready
    then of_error ⦃t = Gpio.traits⦄ GpioError.device_not_available "GPIO device not ready"
    else set

abbrev state_of : ℤ → DigitalState
state_of (negsuc n) = low
state_of (pos zero) = low
state_of (pos n) = high

-- `value` is what gpio_pin_get_dt returns.
unfoldable pub do_read : Bool → ℤ → DigitalState
do_read ready value = if not ready then low else state_of value

-- The value that gpio_pin_set_dt gets, if it is called.
unfoldable pub do_write : Bool → DigitalState → Option ℕ
do_write false state = none
do_write true low = some 0
do_write true high = some 1
