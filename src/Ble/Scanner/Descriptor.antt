-- ===== src/Ble/Scanner/Descriptor.antt =====
-- What a scanner (platform/posix_core/ble/Ble.cpp) does with its descriptor and with the controller.
use enocean_core.Base.{
  ◌≡◌, refl, arith, Bool, true, false, ◌&&◌, List, [], ◌∷◌, Option, some, none, if◌then◌else◌,
}
use enocean_core.Base.Int.{ℤ}
use enocean_core.Ble.Scanner.{
  Hci, Call, hci_open_dev, close, scan_enable, scan_disable, Scanner, construct, is_negative,
  open_hci_socket, init, init_impl, enable_le_scan, disable_le_scan, create, start_scan_impl,
  stop_scan_impl, destruct,
}
use enocean_core.Ble.Scanner.Life.{Op, inits, starts, stops, apply, run_ops}

-- The descriptor that is open after the calls.
pub holds : List Call → Option ℤ
holds [] = none
holds (hci_open_dev fd ∷ calls) = if is_negative fd then holds calls else some fd
holds (close fd ∷ calls) = none
holds (scan_enable rc ∷ calls) = holds calls
holds (scan_disable ∷ calls) = holds calls

-- Whether the controller scans after the calls.
pub scans : List Call → Bool
scans [] = false
scans (hci_open_dev fd ∷ calls) = scans calls
scans (close fd ∷ calls) = scans calls
scans (scan_enable rc ∷ calls) = if is_negative rc then scans calls else true
scans (scan_disable ∷ calls) = false

-- A descriptor is opened only while none is open, and closed only while it is the open one.
abbrev pub IsOrderly : List Call → Type 0
IsOrderly [] = Unit {0}
IsOrderly (hci_open_dev fd ∷ calls) = (holds calls ≡ none) × IsOrderly calls
IsOrderly (close fd ∷ calls) = (holds calls ≡ some fd) × IsOrderly calls
IsOrderly (scan_enable rc ∷ calls) = IsOrderly calls
IsOrderly (scan_disable ∷ calls) = IsOrderly calls

-- `init` is called only while the scanner has no descriptor.
abbrev pub InitsOnce : Scanner → List Op → Type 0
InitsOnce s [] = Unit {0}
InitsOnce s (inits hci cb ∷ ops) =
    (is_negative s.hci_fd ≡ true) × InitsOnce (apply s (inits hci cb)) ops
InitsOnce s (starts hci ∷ ops) = InitsOnce (apply s (starts hci)) ops
InitsOnce s (stops ∷ ops) = InitsOnce (apply s stops) ops

abbrev descriptor : ℤ → Option ℤ
descriptor fd = if is_negative fd then none else some fd

record IsSound (s : Scanner) : Type 0 where
  orderly : IsOrderly s.calls
  held : holds s.calls ≡ descriptor s.hci_fd
  scanning : scans s.calls ≡ s.running
  reachable : (s.running && is_negative s.hci_fd) ≡ false

init-IsSound :
    (hci : Hci) (s : Scanner) (cb : Bool)
    → is_negative s.hci_fd ≡ true
    → IsSound s
    → IsSound (init hci s cb).0
unfolding init init_impl open_hci_socket holds scans
init-IsSound hci s cb fd h = record {
  orderly = ground (arith, h.orderly, h.held, fd);
  held = ground (arith, h.held, fd);
  scanning = ground (arith, h.scanning);
  reachable = ground (arith, h.reachable, fd);
}

start_scan_impl-IsSound : (hci : Hci) (s : Scanner) → IsSound s → IsSound (start_scan_impl hci s).0
unfolding start_scan_impl create enable_le_scan disable_le_scan holds scans
start_scan_impl-IsSound hci s h = record {
  orderly = ground (arith, h.orderly);
  held = ground (arith, h.held);
  scanning = ground (arith, h.scanning);
  reachable = ground (arith, h.reachable);
}

stop_scan_impl-IsSound : (s : Scanner) → IsSound s → IsSound (stop_scan_impl s).0
unfolding stop_scan_impl disable_le_scan holds scans
stop_scan_impl-IsSound s h = record {
  orderly = ground (arith, h.orderly);
  held = ground (arith, h.held);
  scanning = ground (arith, h.scanning, h.reachable);
  reachable = ground (arith, h.reachable);
}

run_ops-IsSound :
    (s : Scanner) (ops : List Op) → InitsOnce s ops → IsSound s → IsSound (run_ops s ops)
unfolding run_ops apply
run_ops-IsSound s [] once h = h
run_ops-IsSound s (inits hci cb ∷ ops) once h =
    run_ops-IsSound (init hci s cb).0 ops once.1 (init-IsSound hci s cb once.0 h)
run_ops-IsSound s (starts hci ∷ ops) once h =
    run_ops-IsSound (start_scan_impl hci s).0 ops once (start_scan_impl-IsSound hci s h)
run_ops-IsSound s (stops ∷ ops) once h =
    run_ops-IsSound (stop_scan_impl s).0 ops once (stop_scan_impl-IsSound s h)

destruct-IsOrderly :
    (s : Scanner)
    → IsSound s
    → IsOrderly (destruct s).calls
      × (holds (destruct s).calls ≡ none)
      × (scans (destruct s).calls ≡ false)
unfolding destruct disable_le_scan holds scans
destruct-IsOrderly s h = (
  ground (arith, h.orderly, h.held, h.reachable),
  ground (arith, h.held, h.reachable),
  ground (arith, h.scanning, h.reachable),
)

-- Whatever a scanner went through before it is destroyed, and whatever BlueZ and the system return, if
-- init is called only while it has no descriptor: a descriptor is opened only while none is open, and
-- closed only while it is the open one. None is left open, and the controller was told to stop any scan
-- that it had accepted.
pub holds-destruct :
    (ops : List Op)
    → InitsOnce construct ops
    → IsOrderly (destruct (run_ops construct ops)).calls
      × (holds (destruct (run_ops construct ops)).calls ≡ none)
      × (scans (destruct (run_ops construct ops)).calls ≡ false)
unfolding holds scans
holds-destruct ops once = destruct-IsOrderly (run_ops construct ops) (
    run_ops-IsSound construct ops once
      (record { orderly = tt; held = refl; scanning = refl; reachable = refl }))
