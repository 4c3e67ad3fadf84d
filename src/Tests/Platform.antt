-- ===== src/Tests/Platform.antt =====
-- The result type, the crypto backends and the scanner on concrete inputs.
use enocean_core.Base.{
  map, All, ◌*◌, ◌<◌, ◌≤◌, ◌+◌, false, ℕ, zero, suc, ◌+◌, ◌≡◌, refl, arith, inl, inr, ◌⊎◌, true,
  List, [], ◌∷◌, ◌++◌, replicate, some, none, done, Total, if◌then◌else◌,
}
use enocean_core.Base.Int.{ℤ, pos, negsuc}
use enocean_core.ErrorHandler.{ErrorHandler, Logged, of_value, of_error}
use enocean_core.ErrorHandler.Laws.{chain, chain-error}
use enocean_core.Errors.Ble.{BleError, traits}
use enocean_core.Enocean.Table.{equal}
use enocean_core.Enocean.Advert.Structures
use enocean_core.Crypto.Posix.{Evp, prepare}
use enocean_core.Crypto.Posix
use enocean_core.Crypto.Zephyr.{BtCcmDecrypt, is_zero}
use enocean_core.Crypto.Zephyr
use enocean_core.Ble.{scan_round}
use enocean_core.Ble.Reports.{scan_round-Total}
use enocean_core.Ble.RoundTrip.{Report, deliver}
use enocean_core.Ble.Loop.{
  Turn, scan_loop, Heard, event, short, foreign, nothing, IsHeard, turn_of, scan_loop-turn_of,
}
use enocean_core.Ble.Scanner.{
  Hci, construct, destruct, Scanner, create, enable_le_scan, disable_le_scan, start_scan_impl,
  stop_scan_impl,
}
use enocean_core.Ble.Scanner.Descriptor.{IsOrderly, holds, scans, holds-destruct}
use enocean_core.Ble.Scanner.Life.{inits, starts, stops, run_ops, start_scan_impl-stop_scan_impl}
use enocean_core.MessageQueue.{Timespec, ms_to_timespec}
use enocean_core.MessageQueue.Deadline.{nanoseconds, ms_to_timespec-lt, ms_to_timespec-nanoseconds}
use enocean_core.Tests.Data.{key, switch_addr, switch_bytes}

abbrev halve : ℕ → Logged (ErrorHandler ℕ BleError)
halve zero = of_error BleError.scan_stop_failed "nothing left"
halve (suc n) = of_value n

abbrev broken : ErrorHandler ℕ BleError
broken = ErrorHandler.error BleError.adapter_not_found

chain-error_example : chain (broken, []) (halve ∷ halve ∷ []) ≡ (
  broken,
  (traits.name BleError.adapter_not_found, "") ∷ (traits.name BleError.adapter_not_found, "") ∷ [],
)
chain-error_example = chain-error (halve ∷ halve ∷ []) BleError.adapter_not_found []

-- A libcrypto whose context is the tag it was given, and which accepts one tag.
abbrev verdict : List ℕ → ℤ
verdict (zero ∷ rest) = pos 1
verdict _ = pos 0

abbrev a_libcrypto : Evp
a_libcrypto = record {
  Ctx = List ℕ;
  ctx_new = some [];
  decrypt_init_cipher = λ ctx. (pos 1, ctx);
  ctrl_set_ivlen = λ ctx len. (pos 1, ctx);
  ctrl_set_tag = λ ctx tag. (pos 1, tag);
  decrypt_init_key = λ ctx key nonce. (pos 1, ctx);
  decrypt_update_len = λ ctx len. (pos 1, ctx);
  decrypt_update_aad = λ ctx aad. (pos 1, ctx);
  decrypt_update = λ ctx bytes. (verdict ctx, ctx);
}

verdict-cases : (tag : List ℕ) → (verdict tag ≡ pos 1) ⊎ (verdict tag ≡ pos 0)
verdict-cases [] = inr refl
verdict-cases (zero ∷ rest) = inl refl
verdict-cases (suc n ∷ rest) = inr refl

abbrev wrong_tag : List ℕ
wrong_tag = 9 ∷ 9 ∷ 9 ∷ 9 ∷ []

aes_ccm_decrypt_impl-accepts_example :
    Posix.aes_ccm_decrypt_impl a_libcrypto key (replicate 13 0) switch_bytes [] wrong_tag 0 ≡ true
aes_ccm_decrypt_impl-accepts_example =
    Posix.aes_ccm_decrypt_impl-accepts a_libcrypto key (replicate 13 0) switch_bytes wrong_tag 0 []
      wrong_tag (λ ctx bytes. verdict-cases ctx) refl (unfold prepare in refl)

abbrev a_controller : BtCcmDecrypt
a_controller _ _ enc_data _ _ _ _ = if equal (1 ∷ []) enc_data then pos 0 else negsuc 0

aes_ccm_decrypt_impl-encode_example :
    (full : List ℕ) × (full ++ wrong_tag
      ≡ Structures.encode (
          record { type = 0xFF; payload = 0xDA ∷ 0x03 ∷ (2 ∷ 0 ∷ 0 ∷ 0 ∷ 3 ∷ []) ++ wrong_tag }
          ∷ []))
    × (Zephyr.aes_ccm_decrypt_impl a_controller key
          (replicate 13 0)
          (2 ∷ 0 ∷ 0 ∷ 0 ∷ 3 ∷ [])
          []
          wrong_tag
          0
        ≡ is_zero (a_controller key (replicate 13 0) (wrong_tag ++ replicate 64 0) 0 full 0 4))
aes_ccm_decrypt_impl-encode_example =
    Zephyr.aes_ccm_decrypt_impl-encode a_controller key (replicate 13 0) (2 ∷ 0 ∷ 0 ∷ 0 ∷ 3 ∷ [])
      wrong_tag 0 refl (omega arith)

abbrev a_report : Report
a_report = record {
  event_type = 3;
  addr_type = 1;
  addr = switch_addr;
  ad = 2 ∷ 1 ∷ 6 ∷ [];
  rssi_byte = 200;
}

abbrev an_empty_report : Report
an_empty_report = record a_report { ad = [] }

abbrev some_heard : List Heard
some_heard =
    event (a_report ∷ an_empty_report ∷ []) 25 []
    ∷ nothing
    ∷ short (0x04 ∷ [])
    ∷ foreign 0x04 0x0E 4 1 []
    ∷ event (an_empty_report ∷ []) 13 (0 ∷ [])
    ∷ []

abbrev a_last_turn : Turn
a_last_turn = record { running = true; bytes = none; still_running = false }

scan_loop-turn_of_example :
    scan_loop true (map turn_of some_heard ++ (a_last_turn ∷ turn_of nothing ∷ []))
    ≡ done (deliver a_report ∷ deliver an_empty_report ∷ deliver an_empty_report ∷ [])
scan_loop-turn_of_example =
    scan_loop-turn_of some_heard a_last_turn (turn_of nothing ∷ []) some_heard-IsHeard
      (inr (refl, refl))
  where
    some_heard-IsHeard : All IsHeard some_heard
    some_heard-IsHeard = (
      ((refl, (refl, tt)), omega arith, omega arith, omega arith),
      (tt, (omega arith, (refl, (((refl, tt), omega arith, omega arith, omega arith), tt)))),
    )

scan_round-Total_example : Total (scan_round true (0x04 ∷ 0x3E ∷ replicate 20 2))
scan_round-Total_example = scan_round-Total true (0x04 ∷ 0x3E ∷ replicate 20 2)

abbrev a_host : Hci
a_host = record {
  get_route = pos 0;
  open_dev = pos 3;
  setsockopt = pos 0;
  set_scan_parameters = pos 0;
  set_scan_enable = pos 0;
  os_create = of_value tt;
}

abbrev a_scanner : Scanner
a_scanner = record {
  callback = true;
  dev_id = pos 0;
  hci_fd = pos 3;
  running = false;
  active = false;
  calls = [];
}

start_scan_impl-stop_scan_impl_example :
    (run_ops
      (stop_scan_impl (start_scan_impl a_host a_scanner).0).0
      (starts a_host ∷ stops ∷ starts a_host ∷ [])).running
    ≡ false
start_scan_impl-stop_scan_impl_example =
    start_scan_impl-stop_scan_impl a_host a_scanner (starts a_host ∷ stops ∷ starts a_host ∷ [])
      refl (unfold start_scan_impl create enable_le_scan disable_le_scan in refl)

holds-destruct_example :
    IsOrderly (destruct (run_ops construct (inits a_host true ∷ starts a_host ∷ stops ∷ []))).calls
    × (holds (destruct (run_ops construct (inits a_host true ∷ starts a_host ∷ stops ∷ []))).calls
        ≡ none)
    × (scans (destruct (run_ops construct (inits a_host true ∷ starts a_host ∷ stops ∷ []))).calls
        ≡ false)
holds-destruct_example = holds-destruct (inits a_host true ∷ starts a_host ∷ stops ∷ []) (refl, tt)

abbrev a_time : Timespec
a_time = record { tv_sec = 10; tv_nsec = 999000000 }

ms_to_timespec-lt_example :
    ((ms_to_timespec 2147483647 a_time 1500).tv_nsec < 1000000000)
    × ((ms_to_timespec 2147483647 a_time 1500).tv_sec ≤ 2147483647)
ms_to_timespec-lt_example = ms_to_timespec-lt 2147483647 a_time 1500 (omega arith)

ms_to_timespec-nanoseconds_example :
    nanoseconds (ms_to_timespec 2147483647 a_time 1500) ≡ nanoseconds a_time + 1500 * 1000000
ms_to_timespec-nanoseconds_example = ms_to_timespec-nanoseconds 2147483647 a_time 1500 (omega arith)
