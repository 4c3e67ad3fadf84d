-- ===== src/Ble/Reports.antt =====
-- Bounds and termination of the parsing of reports (platform/posix_core/ble/Ble.cpp).
use enocean_core.Base.{
  ℕ, zero, suc, ◌+◌, arith, inl, inr, Bool, true, false, not, List, length, drop, Run, read,
  subspan, ltb, ◌==◌, Bool-cases, if◌then◌else◌, Total, done-Total, bind-Total, read-Total,
  subspan-Total,
}
use enocean_core.Ble.{
  Advertisement, reports, dispatch_adv_report, scan_round, k_report_hdr, k_max_reports,
  k_hci_event_pkt, k_evt_le_meta, k_le_adv_report_evt,
}

reports-Total : (n : ℕ) (buf : List ℕ) (ptr : ℕ) → Total (reports n buf ptr)
unfolding reports
reports-Total zero buf ptr = done-Total _
reports-Total (suc n) buf ptr = elim (Bool-cases (ltb (length buf) (ptr + k_report_hdr))) [
  | inl over ↦ rw over (done-Total _)
  | inr inside ↦ rw inside (
      bind-Total (read buf ptr) _ (read-Total buf ptr (ground arith)) λ adv_type.
        bind-Total (read buf (ptr + 1)) _ (read-Total buf (ptr + 1) (ground arith)) λ addr_type.
          bind-Total (read buf (ptr + 8)) _ (read-Total buf (ptr + 8) (ground arith)) λ data_len.
            elim (Bool-cases (ltb (length buf) (ptr + k_report_hdr + data_len))) [
              | inl cut ↦ rw cut (done-Total _)
              | inr whole ↦ rw whole (
                  bind-Total (read buf (ptr + 9 + data_len)) _
                    (read-Total buf (ptr + 9 + data_len) (ground arith))
                    λ rssi.
                      bind-Total (subspan buf (ptr + 2) 6) _
                        (subspan-Total buf (ptr + 2) 6 (ground arith))
                        λ addr.
                          bind-Total (subspan buf (ptr + 9) data_len) _
                            (subspan-Total buf (ptr + 9) data_len (ground arith))
                            λ adv_data.
                              bind-Total (reports n buf (ptr + 9 + data_len + 1)) _
                                (reports-Total n buf (ptr + 9 + data_len + 1))
                                λ others. done-Total _)
            ])
]

dispatch_adv_report-Total :
    (has_callback : Bool) (report : List ℕ) (num_reports : ℕ)
    → Total (dispatch_adv_report has_callback report num_reports)
unfolding dispatch_adv_report
dispatch_adv_report-Total false report n = done-Total _
dispatch_adv_report-Total true report n = elim (Bool-cases (ltb k_max_reports n)) [
  | inl many ↦ rw many (done-Total _)
  | inr few ↦ rw few (reports-Total n report 0)
]

-- Whatever bytes a read returns, the round reads only among them, and ends.
pub scan_round-Total : (has_callback : Bool) (buf : List ℕ) → Total (scan_round has_callback buf)
unfolding scan_round
scan_round-Total has_callback buf = elim (Bool-cases (ltb (length buf) 16)) [
  | inl short ↦ rw short (done-Total _)
  | inr long ↦ rw long (
      bind-Total (read buf 0) _ (read-Total buf 0 (ground arith)) λ packet.
        bind-Total (read buf 1) _ (read-Total buf 1 (ground arith)) λ event.
          bind-Total (read buf 3) _ (read-Total buf 3 (ground arith)) λ subevent.
            bind-Total (read buf 4) _ (read-Total buf 4 (ground arith)) λ n.
              if_Total (not (packet == k_hci_event_pkt)) (done-Total _) (
                if_Total (not (event == k_evt_le_meta)) (done-Total _) (
                  if_Total (not (subevent == k_le_adv_report_evt)) (done-Total _) (
                    if_Total (n == 0) (done-Total _)
                      (dispatch_adv_report-Total has_callback (drop 5 buf) n)))))
]
  where
    if_Total :
        (b : Bool) {x y : Run (List Advertisement)} → Total x → Total y → Total (if b then x else y)
    if_Total true hx hy = hx
    if_Total false hx hy = hy
