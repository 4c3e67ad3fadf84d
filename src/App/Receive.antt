-- ===== src/App/Receive.antt =====
-- From the bytes that the controller sends to the callbacks of the application
-- (platform/posix_core/ble/Ble.cpp, src/enocean/EnoceanDriver.ipp, application/AppEntry.cpp).
use enocean_core.Base.{
  ℕ, ◌<◌, ◌≤◌, ◌≡◌, refl, ap, ◌∙◌, arith, List, [], ◌∷◌, ◌++◌, map, length, length-append, All,
  Option, some, Run, done, out_of_bounds, out_of_fuel, ◌>>=◌,
}
use mathlib.Core.List.{append-nil}
use enocean_core.Base.Int.{int8}
use enocean_core.Crypto.{Decrypt}
use enocean_core.Enocean.Types.{ButtonAction, DeviceType, EnoceanDevice, Event}
use enocean_core.Enocean.Fields.Laws.{le_u32}
use enocean_core.Enocean.Telegram.Accept.{numbered, status_byte, IsOptionalLen, button_event}
use enocean_core.Enocean.Driver.{EnoceanDriver, process_advertisement, advertisement_cb}
use enocean_core.Enocean.Driver.Steps.{with_device}
use enocean_core.Enocean.Driver.History.{Call, advertises, call, run_calls}
use enocean_core.Enocean.Driver.Receive.{Knows, Carries, IsGenuine, process_advertisement-switch}
use enocean_core.Ble.RoundTrip.{Report, encode, encode_report, deliver, IsReport, scan_round-encode}
use enocean_core.App.{feed, receive}

-- The call of the driver for a report.
abbrev pub call_for : Report → Call
call_for r = advertises r.addr r.addr_type r.event_type (int8 r.rssi_byte) r.ad

-- With the driver as the context.
abbrev pub with_context : EnoceanDriver × List Event → Option EnoceanDriver × List Event
with_context r = (some r.0, r.1)

abbrev pub map_run : {A B : Type 0} → (A → B) → Run A → Run B
map_run f r = r >>= (λ a. done (f a))

-- Events in front of a run, before the context is put in place and after.
prepend : List Event → Run (EnoceanDriver × List Event) → Run (EnoceanDriver × List Event)
prepend events m = do rest ← m; done (rest.0, events ++ rest.1)

prepend-with_context :
    (events : List Event) (m : Run (EnoceanDriver × List Event))
    {fed : Run (Option EnoceanDriver × List Event)}
    → fed ≡ map_run with_context m
    → (fed >>= (λ rest.
        let r : Run (Option EnoceanDriver × List Event) = done (rest.0, events ++ rest.1) in r))
      ≡ map_run with_context (prepend events m)
unfolding prepend
prepend-with_context events (done r) e = rw e refl
prepend-with_context events out_of_bounds e = rw e refl
prepend-with_context events out_of_fuel e = rw e refl

feed-deliver :
    (crypto : Decrypt) (rs : List Report) (d : EnoceanDriver)
    → feed crypto (some d) (map deliver rs)
      ≡ map_run with_context (run_calls crypto d (map call_for rs))
unfolding feed advertisement_cb run_calls call prepend
feed-deliver crypto [] d = refl
feed-deliver crypto (r ∷ rs) d =
    after (process_advertisement crypto d r.addr r.addr_type r.event_type (int8 r.rssi_byte) r.ad)
      refl (λ d'. feed-deliver crypto rs d')
  where
    after :
        (first : Run (EnoceanDriver × List Event))
        → process_advertisement crypto d r.addr r.addr_type r.event_type (int8 r.rssi_byte) r.ad
          ≡ first
        → ((d' : EnoceanDriver)
            → feed crypto (some d') (map deliver rs)
              ≡ map_run with_context (run_calls crypto d' (map call_for rs)))
        → feed crypto (some d) (map deliver (r ∷ rs))
          ≡ map_run with_context (run_calls crypto d (map call_for (r ∷ rs)))
    after (done (d', events)) e ih =
        rw e (prepend-with_context events (run_calls crypto d' (map call_for rs)) (ih d'))
    after out_of_bounds e ih = rw e refl
    after out_of_fuel e ih = rw e refl

-- The bytes of an advertising report event.
abbrev pub event : ℕ → List Report → List ℕ → List ℕ
event parameter_len rs rest = 0x04 ∷ 0x3E ∷ parameter_len ∷ 0x02 ∷ length rs ∷ (encode rs ++ rest)

-- An event with one to fifteen reports, whose reports and the bytes behind them are eleven bytes or more,
-- does to the driver and the callbacks what the history of the calls for its reports, in order, does.
pub receive-event :
    (crypto : Decrypt) (d : EnoceanDriver) (rs : List Report) (parameter_len : ℕ) (rest : List ℕ)
    → All IsReport rs
    → 1 ≤ length rs
    → length rs ≤ 15
    → 11 ≤ length (encode rs ++ rest)
    → receive crypto d (event parameter_len rs rest)
      ≡ map_run with_context (run_calls crypto d (map call_for rs))
unfolding receive
receive-event crypto d rs parameter_len rest v some_report few long =
    rw (scan_round-encode rs parameter_len rest v some_report few long) (feed-deliver crypto rs d)

-- A report of an advertisement that cannot be connected to, from the random address of a device.
abbrev pub report_from : EnoceanDevice → List ℕ → ℕ → Report
report_from dev ad rssi = record {
  event_type = 3;
  addr_type = 1;
  addr = dev.ble_addr.addr;
  ad = ad;
  rssi_byte = rssi;
}

-- An event with one report, which holds the advertisement of a genuine switch telegram from a switch
-- that the initialised driver knows: the slot of the switch gets the number and the signal strength,
-- and the button callback, if set, is called once, with the action, the buttons and the optional data
-- that the telegram was built from.
pub receive-switch :
    (crypto : Decrypt) (d : EnoceanDriver) (i : ℕ) (dev : EnoceanDevice) (parameter_len rssi : ℕ)
    (ad : List ℕ) (b0 b1 b2 b3 : ℕ) (action : ButtonAction) (buttons : ℕ) (opt tag : List ℕ)
    → Knows d i dev
    → dev.type ≡ DeviceType.switch
    → buttons < 16
    → IsOptionalLen (length opt)
    → IsGenuine crypto dev b0 b1 b2 b3 (status_byte action buttons ∷ opt) tag
    → Carries ad (numbered b0 b1 b2 b3 (status_byte action buttons ∷ (opt ++ tag)))
    → length dev.ble_addr.addr ≡ 6
    → 1 ≤ length ad
    → let after = record dev { rssi = int8 rssi; seq_num = le_u32 b0 b1 b2 b3 } in
      receive crypto d (event parameter_len (report_from dev ad rssi ∷ []) [])
      ≡ done (some (with_device d i after), button_event d.callbacks after action buttons opt)
unfolding run_calls call
receive-switch crypto d i dev parameter_len rssi ad b0 b1 b2 b3 action buttons opt tag k type hb ho
      g c six some_ad =
    let r = report_from dev ad rssi in
    let after = record dev { rssi = int8 rssi; seq_num = le_u32 b0 b1 b2 b3 } in
    let size : 11 ≤ length (encode (r ∷ []) ++ []) = omega (
      arith,
      ap length (append-nil (encode (r ∷ []))),
      ap length (append-nil (encode_report r)),
      length-append dev.ble_addr.addr (length ad ∷ (ad ++ (rssi ∷ []))),
      length-append ad (rssi ∷ []),
      six,
      some_ad,
    ) in
    receive-event crypto d (r ∷ []) parameter_len [] (six, tt) (omega arith) (omega arith) size
    ∙ rw
        (process_advertisement-switch crypto d i dev (int8 rssi) ad b0 b1 b2 b3 action buttons opt
          tag k type hb ho g c)
        (ap (λ l. done (some (with_device d i after), l))
          (append-nil (button_event d.callbacks after action buttons opt)))
