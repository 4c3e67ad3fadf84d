-- ===== src/Board/Watchdog.antt =====
-- boards/zephyr/watchdog/Watchdog.cpp. `calls` are the calls of Zephyr so far, the newest first; what
-- they return is a parameter. A channel identifier that is negative is a negated error number.
use enocean_core.Base.{ℕ, ◌-◌, Bool, true, false, not, List, ◌∷◌, ◌==◌, if◌then◌else◌}
use enocean_core.Base.Int.{ℤ, pos, negsuc}
use enocean_core.ErrorHandler.{ErrorHandler, Logged, of_value, of_error}
use enocean_core.Errors.Watchdog.{WatchdogError}
use enocean_core.Errors.Watchdog
use enocean_core.Os.{Errno, enotsup, einval, enodev, ebusy, Rc, success, failure}

-- wdt_install_timeout carries the greatest timeout and whether there is a callback.
pub data Call : Type 0 where
  wdt_install_timeout : ℕ → Bool → Call
  wdt_setup : Call
  wdt_feed : ℤ → Call

-- What Zephyr answers to the newest call, and the number of ENOTSUP.
pub record Zephyr : Type 0 where
  pub ready : Bool
  pub install : List Call → ℤ
  pub setup : List Call → Rc
  pub enotsup_number : ℕ

pub record WatchdogDriver : Type 0 where
  pub wdt_channel_id : ℤ
  pub calls : List Call

abbrev pub Result : Type 0
Result = Logged (ErrorHandler (Unit {0}) WatchdogError)

unfoldable pub errno_to_watchdog_error : Errno → WatchdogError
errno_to_watchdog_error enotsup = WatchdogError.not_supported
errno_to_watchdog_error einval = WatchdogError.invalid_parameter
errno_to_watchdog_error enodev = WatchdogError.device_not_found
errno_to_watchdog_error ebusy = WatchdogError.already_initialized
errno_to_watchdog_error _ = WatchdogError.hardware_error

abbrev pub is_negative : ℤ → Bool
is_negative (pos n) = false
is_negative (negsuc n) = true

-- Equal to a negated number.
abbrev pub is_negated : ℕ → ℤ → Bool
is_negated n (pos m) = false
is_negated n (negsuc m) = m == n - 1

-- The configuration has no callback, since it starts as zeros.
unfoldable pub install : Zephyr → ℕ → WatchdogDriver → WatchdogDriver
install z timeout w =
    let calls = wdt_install_timeout timeout false ∷ w.calls in
    record { wdt_channel_id = z.install calls; calls = calls }

-- Once more, without a callback, where the first is not supported.
unfoldable pub install_twice : Zephyr → ℕ → WatchdogDriver → WatchdogDriver
unfolding install
install_twice z timeout w =
    let first = install z timeout w in
    if is_negated z.enotsup_number first.wdt_channel_id then install z timeout first else first

abbrev pub setup_result : Rc → Result
setup_result success = of_value tt
setup_result (failure e) =
    of_error ⦃t = Watchdog.traits⦄ (errno_to_watchdog_error e) "Failed to setup watchdog"

unfoldable pub init_impl : Zephyr → ℕ → WatchdogDriver → WatchdogDriver × Result
unfolding install_twice
init_impl z timeout w =
    let installed = install_twice z timeout w in
    let calls = wdt_setup ∷ installed.calls in
    if not z.ready
    then (
      w,
      of_error ⦃t = Watchdog.traits⦄ WatchdogError.device_not_ready "Watchdog device not ready",
    )
    else if is_negative installed.wdt_channel_id
    then (
      installed,
      of_error ⦃t = Watchdog.traits⦄ WatchdogError.configuration_error
          "Failed to install watchdog timeout",
    )
    else (record installed { calls = calls }, setup_result (z.setup calls))

unfoldable pub feed_impl : WatchdogDriver → WatchdogDriver
feed_impl w = record w { calls = wdt_feed w.wdt_channel_id ∷ w.calls }
