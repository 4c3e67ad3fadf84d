-- ===== src/App.antt =====
-- application/AppEntry.cpp: how the application starts the driver and the scanner, what an event of the
-- controller leads to from then on, and what its callback for a sensor logs. `sleep` never returns.
pub mod Receive
pub mod Print
use enocean_core.Base.{
  ℕ, ◌+◌, ◌/◌, ◌%◌, Bool, true, false, not, List, [], ◌∷◌, ◌++◌, Option, some, none, Run, done,
  ◌>>=◌, ◌==◌, if◌then◌else◌,
}
use enocean_core.Base.Int.{ℤ, pos, negsuc, sub_ℕ, int16}
use enocean_core.ErrorHandler.{ErrorHandler, has_value}
use enocean_core.Crypto.{Decrypt}
use enocean_core.Enocean.Types.{SensorData, EnoceanCallbacks, Event}
use enocean_core.Enocean.Driver.{EnoceanDriver, enable_commissioning, advertisement_cb}
use enocean_core.Enocean.Driver
use enocean_core.Ble.{Advertisement, scan_round}
use enocean_core.Ble.Scanner.{Hci, Scanner, start_scan_impl}
use enocean_core.Ble.Scanner

-- All five are set.
abbrev pub callbacks : EnoceanCallbacks
callbacks = record {
  button = true;
  sensor = true;
  commissioned = true;
  decommissioned = true;
  loaded = true;
}

-- run_impl up to its loop, from what the system returns to the scanner's init and start_scan: the scanner
-- and the driver, or `none` where it returned.
unfoldable pub run_impl : Hci → Hci → Option (Scanner × EnoceanDriver)
run_impl hci hci_start =
    let (driver, init_result) = Driver.init (Driver.construct callbacks) in
    let (scanner, ble_init) = Scanner.init hci Scanner.construct true in
    let (scanning, scan_start) = start_scan_impl hci_start scanner in
    if not (has_value init_result)
    then none
    else if not (has_value ble_init.0)
    then none
    else if not (has_value scan_start.0)
    then none
    else some (scanning, enable_commissioning driver)

-- The calls of advertisement_cb by the scan thread, in order.
unfoldable pub feed :
    Decrypt → Option EnoceanDriver → List Advertisement → Run (Option EnoceanDriver × List Event)
feed crypto ctx [] = done (ctx, [])
feed crypto ctx (a ∷ as') = do
  first ← advertisement_cb crypto ctx a.addr a.addr_type a.adv_type a.rssi a.adv_data
  rest ← feed crypto first.0 as'
  done (rest.0, first.1 ++ rest.1)

-- A round of the scan loop with these bytes, and the callbacks of the application that it leads to.
unfoldable pub receive : Decrypt → EnoceanDriver → List ℕ → Run (Option EnoceanDriver × List Event)
unfolding feed
receive crypto d buf = do advertisements ← scan_round true buf; feed crypto (some d) advertisements

-- A line of the log, with the values that are printed.
pub data Line : Type 0 where
  heading : Line
  temperature : Bool → ℤ → ℤ → Line
  humidity light solar energy battery accel_status : ℕ → Line
  occupancy contact : Bool → Line
  accel : ℤ → ℤ → ℤ → Line

abbrev pub is_negative : ℤ → Bool
is_negative (pos n) = false
is_negative (negsuc n) = true

-- `static_cast<std::int16_t>(t < 0 ? -t : t)`.
abbrev pub magnitude : ℤ → ℤ
magnitude (pos n) = int16 n
magnitude (negsuc n) = int16 (n + 1)

-- Division by 100, towards 0, and its remainder.
abbrev pub quotient : ℤ → ℤ
quotient (pos n) = pos (n / 100)
quotient (negsuc n) = sub_ℕ 0 ((n + 1) / 100)

abbrev pub remainder : ℤ → ℤ
remainder (pos n) = pos (n % 100)
remainder (negsuc n) = sub_ℕ 0 ((n + 1) % 100)

unfoldable pub temperature_line : ℤ → Line
temperature_line t =
    let ta = magnitude t in temperature (is_negative t) (quotient ta) (remainder ta)

-- A line if there is a value.
abbrev pub line : {A : Type 0} → (A → Line) → Option A → List Line
line f none = []
line f (some a) = f a ∷ []

-- The three values are read without a test: `none` where one is missing.
abbrev pub accel_line : Option ℤ → Option ℤ → Option ℤ → Option (List Line)
accel_line (some x) (some y) (some z) = some (accel x y z ∷ [])
accel_line _ _ _ = none

unfoldable pub accel_lines : Option ℕ → SensorData → Option (List Line)
accel_lines none data' = some []
accel_lines (some status) data' =
    if status == 3
    then some (accel_status status ∷ [])
    else elim (accel_line data'.accel_x_cg data'.accel_y_cg data'.accel_z_cg) [
      | none ↦ none
      | some lines ↦ some (accel_status status ∷ lines)
    ]

-- What it logs, or `none` where it reads a value that is not there.
unfoldable pub on_sensor : SensorData → Option (List Line)
unfolding temperature_line accel_lines
on_sensor data' =
    let first =
      line temperature_line data'.temperature_cdeg
      ++ line humidity data'.humidity
      ++ line occupancy data'.occupancy
      ++ line light data'.light_sensor
      ++ line solar data'.light_solar_cell
      ++ line energy data'.energy_lvl
      ++ line battery data'.battery_voltage
      ++ line contact data'.contact in
    elim (accel_lines data'.accel_status data') [
      | none ↦ none
      | some lines ↦ some (heading ∷ first ++ lines)
    ]
