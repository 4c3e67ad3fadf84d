-- ===== src/Ble/Zephyr.antt =====
-- platform/zephyr_core/ble/Ble.cpp. What Zephyr's calls return is a parameter, and the instance that its
-- callback finds is the scanner that was initialised last, if any.
use enocean_core.Base.{Bool, Option, none, some, if◌then◌else◌}
use enocean_core.ErrorHandler.{ErrorHandler, Logged, of_value, of_error}
use enocean_core.Errors.Ble.{BleError, traits}
use enocean_core.Os.{Rc, success, failure}
use enocean_core.Ble.{Advertisement}

-- `callback` is whether it is set.
pub record Scanner : Type 0 where
  pub callback : Bool

abbrev pub Result : Type 0
Result = Logged (ErrorHandler (Unit {0}) BleError)

-- The scanner, which is the instance from now on.
unfoldable pub init_impl : Bool → Scanner → Scanner × Result
init_impl cb s = (record { callback = cb }, of_value tt)

-- From what bt_le_scan_start returns.
unfoldable pub start_scan_impl : Rc → Result
start_scan_impl success = of_value tt
start_scan_impl (failure e) = of_error BleError.scan_start_failed "bt_le_scan_start failed"

-- From what bt_le_scan_stop returns.
unfoldable pub stop_scan_impl : Rc → Result
stop_scan_impl success = of_value tt
stop_scan_impl (failure e) = of_error BleError.scan_stop_failed "bt_le_scan_stop failed"

-- The call of the callback, if there is one. What Zephyr passes is `none` where a pointer is null.
unfoldable pub zephyr_scan_cb : Option Scanner → Option Advertisement → Option Advertisement
zephyr_scan_cb (some inst) (some info) = if inst.callback then some info else none
zephyr_scan_cb _ _ = none
