-- ===== src/Ble/Scanner/Life.antt =====
-- Histories of a scanner (platform/posix_core/ble/Ble.cpp).
use enocean_core.Base.{◌≡◌, arith, Bool, true, false, List, [], ◌∷◌}
use enocean_core.ErrorHandler.{ErrorHandler}
use enocean_core.Errors.Ble.{BleError}
use enocean_core.Ble.Scanner.{
  Hci, Scanner, is_negative, open_hci_socket, enable_le_scan, disable_le_scan, create, init,
  init_impl, start_scan_impl, stop_scan_impl,
}

-- A call of the application, with what BlueZ and the operating system return during it.
pub data Op : Type 0 where
  inits : Hci → Bool → Op
  starts : Hci → Op
  stops : Op

unfoldable pub apply : Scanner → Op → Scanner
apply s (inits hci cb) = (init hci s cb).0
apply s (starts hci) = (start_scan_impl hci s).0
apply s stops = (stop_scan_impl s).0

unfoldable pub run_ops : Scanner → List Op → Scanner
run_ops s [] = s
run_ops s (op ∷ ops) = run_ops (apply s op) ops

-- Its thread was created, and it does not run.
record IsSpent (s : Scanner) : Type 0 where
  active : s.active ≡ true
  idle : s.running ≡ false

start_scan_impl-IsSpent : (hci : Hci) (s : Scanner) → IsSpent s → IsSpent (start_scan_impl hci s).0
unfolding start_scan_impl create enable_le_scan disable_le_scan
start_scan_impl-IsSpent hci s h = record {
  active = ground (arith, h.active, h.idle);
  idle = ground (arith, h.active, h.idle);
}

init-IsSpent : (hci : Hci) (s : Scanner) (cb : Bool) → IsSpent s → IsSpent (init hci s cb).0
unfolding init init_impl open_hci_socket
init-IsSpent hci s cb h = record {
  active = ground (arith, h.active, h.idle);
  idle = ground (arith, h.active, h.idle);
}

stop_scan_impl-IsSpent : (s : Scanner) → IsSpent s → IsSpent (stop_scan_impl s).0
unfolding stop_scan_impl disable_le_scan
stop_scan_impl-IsSpent s h = record {
  active = ground (arith, h.active, h.idle);
  idle = ground (arith, h.active, h.idle);
}

run_ops-IsSpent : (s : Scanner) (ops : List Op) → IsSpent s → IsSpent (run_ops s ops)
unfolding run_ops apply
run_ops-IsSpent s [] h = h
run_ops-IsSpent s (inits hci cb ∷ ops) h =
    run_ops-IsSpent (init hci s cb).0 ops (init-IsSpent hci s cb h)
run_ops-IsSpent s (starts hci ∷ ops) h =
    run_ops-IsSpent (start_scan_impl hci s).0 ops (start_scan_impl-IsSpent hci s h)
run_ops-IsSpent s (stops ∷ ops) h =
    run_ops-IsSpent (stop_scan_impl s).0 ops (stop_scan_impl-IsSpent s h)

started-IsSpent :
    (hci : Hci) (s : Scanner)
    → s.running ≡ false
    → (start_scan_impl hci s).1.0 ≡ ErrorHandler.value tt
    → IsSpent (stop_scan_impl (start_scan_impl hci s).0).0
unfolding start_scan_impl stop_scan_impl create enable_le_scan disable_le_scan
started-IsSpent hci s idle e = record { active = ground arith; idle = ground arith }

-- Once an idle scanner was started with success and stopped, it does not run after any further calls,
-- whatever the system returns to them, since the thread of the first scan is never joined.
pub start_scan_impl-stop_scan_impl :
    (hci : Hci) (s : Scanner) (ops : List Op)
    → s.running ≡ false
    → (start_scan_impl hci s).1.0 ≡ ErrorHandler.value tt
    → (run_ops (stop_scan_impl (start_scan_impl hci s).0).0 ops).running ≡ false
start_scan_impl-stop_scan_impl hci s ops idle e =
    (run_ops-IsSpent (stop_scan_impl (start_scan_impl hci s).0).0 ops
      (started-IsSpent hci s idle e)).idle

-- A further start of an initialised scanner whose thread was created and that does not run fails with
-- SystemError where BlueZ accepts the scan.
pub start_scan_impl-active :
    (hci : Hci) (s : Scanner)
    → is_negative s.hci_fd ≡ false
    → s.active ≡ true
    → s.running ≡ false
    → (enable_le_scan hci s.calls).0 ≡ true
    → (start_scan_impl hci s).1.0 ≡ ErrorHandler.error BleError.system_error
unfolding start_scan_impl create enable_le_scan disable_le_scan
start_scan_impl-active hci s fd active idle enabled = ground arith
