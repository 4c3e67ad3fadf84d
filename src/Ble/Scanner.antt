-- ===== src/Ble/Scanner.antt =====
-- platform/posix_core/ble/Ble.cpp: the life of a scanner, with the front of it in
-- platform/common/ible/IBle.hpp and the part of platform/common/ithread/IThread.hpp that it uses.
-- What BlueZ and the operating system return to an operation is a parameter of it. Of the log, only
-- the lines of a BleError are modelled.
pub mod Life
pub mod Descriptor
use enocean_core.Base.{Bool, true, false, not, ◌||◌, ◌&&◌, List, [], ◌∷◌, if◌then◌else◌}
use enocean_core.Base.Int.{ℤ, pos, negsuc}
use enocean_core.ErrorHandler.{ErrorHandler, Logged, of_value, of_error}
use enocean_core.Errors.Ble.{BleError, traits}
use enocean_core.Errors.Thread.{ThreadError}
use enocean_core.Errors.Thread

-- What the calls return while one operation runs.
pub record Hci : Type 0 where
  pub get_route : ℤ
  pub open_dev : ℤ
  pub setsockopt : ℤ
  pub set_scan_parameters : ℤ
  pub set_scan_enable : ℤ
  pub os_create : Logged (ErrorHandler (Unit {0}) ThreadError)

-- A call of BlueZ or the operating system, where what it returned counts, with that.
pub data Call : Type 0 where
  hci_open_dev : ℤ → Call
  close : ℤ → Call
  scan_enable : ℤ → Call
  scan_disable : Call

-- `calls` are the calls so far, the newest first, which no code reads.
pub record Scanner : Type 0 where
  pub callback : Bool
  pub dev_id : ℤ
  pub hci_fd : ℤ
  pub running : Bool
  -- `active` of the scan thread.
  pub active : Bool
  pub calls : List Call

abbrev pub construct : Scanner
construct = record {
  callback = false;
  dev_id = negsuc 0;
  hci_fd = negsuc 0;
  running = false;
  active = false;
  calls = [];
}

abbrev pub Result : Type 0
Result = Logged (ErrorHandler (Unit {0}) BleError)

abbrev pub is_negative : ℤ → Bool
is_negative (pos n) = false
is_negative (negsuc n) = true

-- The descriptor, or -1. It is closed where the filter cannot be set.
unfoldable pub open_hci_socket : Hci → List Call → ℤ × List Call
open_hci_socket hci calls =
    if is_negative hci.open_dev
    then (negsuc 0, hci_open_dev hci.open_dev ∷ calls)
    else if is_negative hci.setsockopt
    then (negsuc 0, close hci.open_dev ∷ hci_open_dev hci.open_dev ∷ calls)
    else (hci.open_dev, hci_open_dev hci.open_dev ∷ calls)

unfoldable pub init_impl : Hci → Scanner → Bool → Scanner × Result
unfolding open_hci_socket
init_impl hci s cb =
    let routed = record s { callback = cb; dev_id = hci.get_route } in
    let socket = open_hci_socket hci s.calls in
    let opened = record routed { hci_fd = socket.0; calls = socket.1 } in
    if is_negative hci.get_route
    then (routed, of_error BleError.adapter_not_found "No BT adapter found (hci_get_route)")
    else if is_negative socket.0
    then (opened, of_error BleError.system_error "Failed to open HCI socket")
    else (opened, of_value tt)

-- IBle::init; `cb` is whether the callback is not null.
unfoldable pub init : Hci → Scanner → Bool → Scanner × Result
unfolding init_impl
init hci s cb =
    if not cb
    then (s, of_error BleError.invalid_callback "Advertisement callback is null")
    else init_impl hci s cb

unfoldable pub enable_le_scan : Hci → List Call → Bool × List Call
enable_le_scan hci calls =
    if is_negative hci.set_scan_parameters then (false, scan_disable ∷ calls) else (
      not (is_negative hci.set_scan_enable),
      scan_enable hci.set_scan_enable ∷ scan_disable ∷ calls,
    )

unfoldable pub disable_le_scan : Scanner → List Call
disable_le_scan s = if is_negative s.hci_fd then s.calls else scan_disable ∷ s.calls

abbrev pub is_value : ErrorHandler (Unit {0}) ThreadError → Bool
is_value (ErrorHandler.value v) = true
is_value (ErrorHandler.error e) = false

-- IThread::create: whether the thread is active after it, and its result.
unfoldable pub create : Hci → Bool → Bool × Logged (ErrorHandler (Unit {0}) ThreadError)
create hci active =
    if active
    then (true, of_error ⦃t = Thread.traits⦄ ThreadError.already_created "Thread already created")
    else (is_value hci.os_create.0, hci.os_create)

-- `running_` is true while the thread is created, and false again if that fails.
unfoldable pub start_scan_impl : Hci → Scanner → Scanner × Result
unfolding create enable_le_scan disable_le_scan
start_scan_impl hci s =
    let enabled = enable_le_scan hci s.calls in
    let scanning = record s { calls = enabled.1 } in
    let created = create hci s.active in
    if is_negative s.hci_fd
    then (s, of_error BleError.not_initialised "Call init() before start_scan()")
    else if s.running
    then (s, of_value tt)
    else if not enabled.0
    then (scanning, of_error BleError.scan_start_failed "hci_le_set_scan_enable failed")
    else if not (is_value created.1.0)
    then (
      record scanning { active = created.0; calls = disable_le_scan scanning },
      of_error BleError.system_error "Failed to create scan thread",
    )
    else (record scanning { running = true; active = created.0 }, of_value tt)

unfoldable pub stop_scan_impl : Scanner → Scanner × Result
unfolding disable_le_scan
stop_scan_impl s =
    if not s.running
    then (s, of_value tt)
    else (record s { running = false; calls = disable_le_scan s }, of_value tt)

-- The body of the destructor, before that of the thread.
unfoldable pub destruct : Scanner → Scanner
unfolding disable_le_scan
destruct s =
    let stopped =
      if s.running then record s { running = false; calls = disable_le_scan s } else s in
    if is_negative stopped.hci_fd
    then stopped
    else record stopped { hci_fd = negsuc 0; calls = close stopped.hci_fd ∷ stopped.calls }
