-- ===== src/Enocean/Driver/Receive.antt =====
-- Whole advertisements, from the AD structures on the air through process_advertisement
-- (src/enocean/EnoceanDriver.ipp) to the callback.
use enocean_core.Base.{
  ℕ, ◌≤◌, ◌<◌, ◌≡◌, refl, ◌∙◌, ap, arith, ◌≢◌, true, false, some, List, [], ◌∷◌, ◌++◌, length,
  length-append, All, get_elem?, done, le→ltb, ◌==◌, ==_iff, if◌then◌else◌, not,
}
use enocean_core.Base.Int.{ℤ}
use enocean_core.Crypto.{Decrypt}
use enocean_core.Enocean.Types.{ButtonAction, DeviceType, EnoceanDevice, Event}
use enocean_core.Enocean.Advert.Structures.{
  AdStructure, encode, first_enocean, IsWellFormed, EndsEarly, extract_manufacturer_data-encode,
}
use enocean_core.Enocean.Fields.Laws.{IsByte, le_u32, seq_bytes}
use enocean_core.Enocean.Sensor.Fields.{Field, IsValid, sensor_data_of}
use enocean_core.Enocean.Sensor.Fields
use enocean_core.Enocean.Table.Invariant.{IsTable, find_device-at}
use enocean_core.Enocean.Telegram.{Handled, handle_sensor}
use enocean_core.Enocean.Telegram.Accept.{
  numbered, status_byte, IsOptionalLen, button_event, handle_switch-accept, handle_sensor-accept,
}
use enocean_core.Enocean.Driver.Steps.{with_device}
use enocean_core.Enocean.Driver.{
  EnoceanDriver, handle_data, process_known, process_payload, process_initialised,
  process_advertisement,
}

-- A driver that has the device in slot `i` in use.
pub record Knows (d : EnoceanDriver) (i : ℕ) (dev : EnoceanDevice) : Type 0 where
  pub ready : d.initialised ≡ true
  pub table : IsTable d.devices
  pub at : get_elem? d.devices i ≡ some dev
  pub active : dev.active ≡ true

-- An advertisement whose first EnOcean structure holds the telegram.
pub record Carries (adv_data p : List ℕ) : Type 0 where
  pub structures : List AdStructure
  pub rest : List ℕ
  pub well_formed : All IsWellFormed structures
  pub ends : EndsEarly rest
  pub bytes : adv_data ≡ encode structures ++ rest
  pub telegram : first_enocean structures ≡ p

pub process_advertisement-known :
    (crypto : Decrypt) (d : EnoceanDriver) (i : ℕ) (dev : EnoceanDevice) (rssi : ℤ)
    (adv_data p : List ℕ) (h : Handled)
    → Knows d i dev
    → Carries adv_data p
    → 9 ≤ length p
    → handle_data crypto d.callbacks dev.type (record dev { rssi = rssi }) p ≡ done h
    → process_advertisement crypto d dev.ble_addr.addr 1 3 rssi adv_data
      ≡ done (with_device d i h.0, h.2)
unfolding process_advertisement process_initialised process_payload process_known
process_advertisement-known crypto d i dev rssi adv_data p h k c long e =
    let body = process_initialised crypto d dev.ble_addr.addr 1 3 rssi adv_data in
    let six = (==_iff (length dev.ble_addr.addr) 6).1 (k.table.fits i dev k.at).addr_len in
    let found = find_device-at dev.ble_addr.addr d.devices i dev k.table k.at k.active refl in
    let extracted =
      extract_manufacturer_data-encode c.structures c.rest c.well_formed c.ends
      ∙ ap done c.telegram in
    let some_bytes : (length p == 0) ≡ false = ground arith in
    ap (λ b. if not b then done (d, []) else body) k.ready
    ∙ rw (six, c.bytes, extracted, some_bytes, le→ltb (length p) 9 long, found, process_known, e)

-- Everything that handle_data checks of the telegram of a device, for the bytes before the tag.
pub record IsGenuine (crypto : Decrypt) (dev : EnoceanDevice) (b0 b1 b2 b3 : ℕ) (body tag : List ℕ)
    : Type 0 where
  pub bytes : All IsByte (b0 ∷ b1 ∷ b2 ∷ b3 ∷ [])
  pub newer : dev.seq_num < le_u32 b0 b1 b2 b3
  pub tag_len : length tag ≡ 4
  pub tag_fits :
      crypto dev.key
        (dev.ble_addr.addr ++ seq_bytes (le_u32 b0 b1 b2 b3))
        (numbered b0 b1 b2 b3 body)
        []
        tag
        0
      ≡ true

-- The advertisement of a genuine switch telegram, from a known switch to an initialised driver: the
-- slot of the switch gets the number and the signal strength, no other part of the driver changes,
-- and the button callback, if set, gets the action, the buttons and the optional data that the
-- telegram was built from.
pub process_advertisement-switch :
    (crypto : Decrypt) (d : EnoceanDriver) (i : ℕ) (dev : EnoceanDevice) (rssi : ℤ)
    (adv_data : List ℕ) (b0 b1 b2 b3 : ℕ) (action : ButtonAction) (buttons : ℕ) (opt tag : List ℕ)
    → Knows d i dev
    → dev.type ≡ DeviceType.switch
    → buttons < 16
    → IsOptionalLen (length opt)
    → IsGenuine crypto dev b0 b1 b2 b3 (status_byte action buttons ∷ opt) tag
    → Carries adv_data (numbered b0 b1 b2 b3 (status_byte action buttons ∷ (opt ++ tag)))
    → (let after = record dev { rssi = rssi; seq_num = le_u32 b0 b1 b2 b3 } in
        process_advertisement crypto d dev.ble_addr.addr 1 3 rssi adv_data
        ≡ done (with_device d i after, button_event d.callbacks after action buttons opt))
process_advertisement-switch crypto d i dev rssi adv_data b0 b1 b2 b3 action buttons opt tag k type
      hb ho g c =
    let heard = record dev { rssi = rssi } in
    let p = numbered b0 b1 b2 b3 (status_byte action buttons ∷ (opt ++ tag)) in
    let fits = k.table.fits i dev k.at in
    process_advertisement-known crypto d i dev rssi adv_data p _ k c
      (omega (arith, length-append opt tag, g.tag_len))
      (ap (λ t. handle_data crypto d.callbacks t heard p) type
        ∙ handle_switch-accept crypto d.callbacks heard b0 b1 b2 b3 action buttons opt tag
            fits.key_len fits.addr_len g.bytes.0 g.bytes.1.0 g.bytes.1.1.0 g.newer hb ho g.tag_len
            g.tag_fits)

-- The advertisement of a genuine telegram with sensor values, from a known device that is no switch
-- to an initialised driver: the slot of the device gets the number and the signal strength, no other
-- part of the driver changes, and the sensor callback, if set, gets the measurements of the fields
-- that the telegram was built from: each is what the last value of its type says, by the table of types
-- of sensor_data_of, and missing where there is none.
pub process_advertisement-sensor :
    (crypto : Decrypt) (d : EnoceanDriver) (i : ℕ) (dev : EnoceanDevice) (rssi : ℤ)
    (adv_data : List ℕ) (b0 b1 b2 b3 : ℕ) (fs : List Field) (tag : List ℕ)
    → Knows d i dev
    → dev.type ≢ DeviceType.switch
    → All IsValid fs
    → 0 < length (Fields.encode fs)
    → IsGenuine crypto dev b0 b1 b2 b3 (Fields.encode fs) tag
    → Carries adv_data (numbered b0 b1 b2 b3 (Fields.encode fs ++ tag))
    → (let after = record dev { rssi = rssi; seq_num = le_u32 b0 b1 b2 b3 } in
        process_advertisement crypto d dev.ble_addr.addr 1 3 rssi adv_data
        ≡ done (
          with_device d i after,
          if d.callbacks.sensor then Event.sensor after (sensor_data_of fs) [] ∷ [] else [],
        ))
process_advertisement-sensor crypto d i dev rssi adv_data b0 b1 b2 b3 fs tag k other v some_value g
      c =
    let heard = record dev { rssi = rssi } in
    let p = numbered b0 b1 b2 b3 (Fields.encode fs ++ tag) in
    let fits = k.table.fits i dev k.at in
    process_advertisement-known crypto d i dev rssi adv_data p _ k c
      (omega (arith, length-append (Fields.encode fs) tag, g.tag_len))
      (routed dev.type heard p other
        ∙ handle_sensor-accept crypto d.callbacks heard b0 b1 b2 b3 fs tag fits.key_len
            fits.addr_len g.bytes.0 g.bytes.1.0 g.bytes.1.1.0 g.newer some_value v g.tag_len
            g.tag_fits)
  where
    routed :
        (type : DeviceType) (heard : EnoceanDevice) (p : List ℕ)
        → type ≢ DeviceType.switch
        → handle_data crypto d.callbacks type heard p ≡ handle_sensor crypto d.callbacks heard p
    routed DeviceType.switch heard p h = absurd (h refl)
    routed DeviceType.sensor heard p h = refl
    routed DeviceType.unknown heard p h = refl
