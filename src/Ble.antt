-- ===== src/Ble.antt =====
-- platform/posix_core/ble/Ble.cpp: what the scan thread makes of the bytes of one read from the HCI
-- socket. The advertisements for which the callback is called are returned in order. A pointer into
-- the buffer is an index, and the end of the buffer the length of the list.
pub mod Loop
pub mod Reports
pub mod RoundTrip
pub mod Scanner
pub mod Zephyr
use enocean_core.Base.{
  ℕ, zero, suc, ◌+◌, ◌-◌, Bool, true, false, not, List, [], ◌∷◌, length, drop, Run, done, ◌>>=◌,
  read, subspan, ltb, ◌==◌, if◌then◌else◌,
}
use enocean_core.Base.Int.{ℤ, int8}

abbrev pub k_hci_event_pkt : ℕ
k_hci_event_pkt = 0x04

abbrev pub k_evt_le_meta : ℕ
k_evt_le_meta = 0x3E

abbrev pub k_le_adv_report_evt : ℕ
k_le_adv_report_evt = 0x02

abbrev pub k_min_adv_report_size : ℕ
k_min_adv_report_size = 11

abbrev pub k_max_reports : ℕ
k_max_reports = 15

abbrev pub k_report_hdr : ℕ
k_report_hdr = 10

-- The arguments of one call of the callback.
pub record Advertisement : Type 0 where
  pub addr : List ℕ
  pub addr_type : ℕ
  pub adv_type : ℕ
  pub rssi : ℤ
  pub adv_data : List ℕ

-- The loop over the reports, with so many to go and the pointer at `ptr`.
pub reports : ℕ → List ℕ → ℕ → Run (List Advertisement)
reports zero buf ptr = done []
reports (suc n) buf ptr =
    let rest = λ (next : ℕ). reports n buf next in
    if ltb (length buf) (ptr + k_report_hdr) then done [] else do
      adv_type ← read buf ptr
      addr_type ← read buf (ptr + 1)
      data_len ← read buf (ptr + 8)
      if ltb (length buf) (ptr + k_report_hdr + data_len) then done [] else do
        rssi ← read buf (ptr + 9 + data_len)
        addr ← subspan buf (ptr + 2) 6
        adv_data ← subspan buf (ptr + 9) data_len
        others ← rest (ptr + 9 + data_len + 1)
        done (
            record {
              addr = addr;
              addr_type = addr_type;
              adv_type = adv_type;
              rssi = int8 rssi;
              adv_data = adv_data;
            }
            ∷ others)

-- `has_callback` is `callback_ != nullptr`.
unfoldable pub dispatch_adv_report : Bool → List ℕ → ℕ → Run (List Advertisement)
unfolding reports
dispatch_adv_report has_callback report num_reports =
    if not has_callback
    then done []
    else if ltb k_max_reports num_reports
    then done []
    else reports num_reports report 0

-- A round of the scan loop in which the read returned these bytes, of which there is at least one.
unfoldable pub scan_round : Bool → List ℕ → Run (List Advertisement)
scan_round has_callback buf = if ltb (length buf) (5 + k_min_adv_report_size) then done [] else do
  packet ← read buf 0
  event ← read buf 1
  subevent ← read buf 3
  num_reports ← read buf 4
  if not (packet == k_hci_event_pkt)
      then done []
      else if not (event == k_evt_le_meta)
      then done []
      else if not (subevent == k_le_adv_report_evt)
      then done []
      else if num_reports == 0
      then done []
      else dispatch_adv_report has_callback (drop 5 buf) num_reports
