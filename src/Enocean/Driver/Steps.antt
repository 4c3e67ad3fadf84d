-- ===== src/Enocean/Driver/Steps.antt =====
-- What the driver may do with one advertisement, as a relation between the states before and after
-- and the callbacks called: a specification of process_advertisement (src/enocean/EnoceanDriver.ipp).
use enocean_core.Base.{
  ℕ, ◌≤◌, ◌<◌, ◌≡◌, true, List, [], ◌∷◌, All, length, set, take, drop, none, some, done, read,
  if◌then◌else◌,
}
use enocean_core.Base.Int.{ℤ}
use enocean_core.Crypto.{Decrypt}
use enocean_core.Enocean.Types.{EnoceanDevice, DeviceType, Event}
use enocean_core.Enocean.Advert.{extract_manufacturer_data}
use enocean_core.Enocean.Fields.{read_seq, detect_device_type}
use enocean_core.Enocean.Table.{find_device, allocate_device}
use enocean_core.Enocean.Telegram.{authenticate}
use enocean_core.Enocean.Telegram.Outcome.{IsOf}
use enocean_core.Enocean.Driver.{EnoceanDriver, is_stm_format}

-- A device as commissioning stores it.
abbrev pub commissioned_device : List ℕ → ℕ → ℤ → ℕ → DeviceType → List ℕ → EnoceanDevice
commissioned_device addr addr_type rssi seq type key = record {
  ble_addr = record { addr = addr; type = addr_type };
  key = key;
  seq_num = seq;
  rssi = rssi;
  type = type;
  active = true;
}

abbrev pub key_offset : List ℕ → ℕ → ℕ
key_offset p marker = if is_stm_format p marker then 5 else 4

abbrev pub with_device : EnoceanDriver → ℕ → EnoceanDevice → EnoceanDriver
with_device d i dev = record d { devices = set d.devices i dev }

-- One advertisement from `addr`, with its signal strength and its bytes.
pub data Step (crypto : Decrypt) (d : EnoceanDriver) (addr : List ℕ) (rssi : ℤ) (adv_data : List ℕ)
    (events : List Event) (d' : EnoceanDriver) : Type 0 where
  ignore : d' ≡ d → events ≡ [] → Step crypto d addr rssi adv_data events d'
  -- A telegram of a known device is refused: only its signal strength is kept.
  refuse :
      (i : ℕ) (dev : EnoceanDevice)
      → find_device addr d.devices ≡ some (i, dev)
      → d' ≡ with_device d i (record dev { rssi = rssi })
      → events ≡ []
      → Step crypto d addr rssi adv_data events d'
  -- A telegram of a known device is accepted: its number is newer and its tag is genuine.
  accept :
      (i : ℕ) (dev : EnoceanDevice) (p : List ℕ) (seq : ℕ)
      → length addr ≡ 6
      → find_device addr d.devices ≡ some (i, dev)
      → extract_manufacturer_data adv_data ≡ done p
      → read_seq p ≡ done seq
      → dev.seq_num < seq
      → authenticate crypto dev p seq ≡ done true
      → d' ≡ with_device d i (record dev { rssi = rssi; seq_num = seq })
      → All (IsOf (record dev { rssi = rssi; seq_num = seq })) events
      → length events ≤ 1
      → Step crypto d addr rssi adv_data events d'
  -- An unknown device is put in a free slot.
  commission :
      (i : ℕ) (free : EnoceanDevice) (p : List ℕ) (seq marker : ℕ) (type : DeviceType)
      → length addr ≡ 6
      → d.commissioning_enabled ≡ true
      → find_device addr d.devices ≡ none
      → allocate_device d.devices ≡ some (i, free)
      → extract_manufacturer_data adv_data ≡ done p
      → 22 ≤ length p
      → read_seq p ≡ done seq
      → read p 4 ≡ done marker
      → detect_device_type addr ≡ done type
      → (let new =
            commissioned_device addr 1 rssi seq type (take 16 (drop (key_offset p marker) p)) in
          (d' ≡ with_device d i new)
          × (events ≡ (if d.callbacks.commissioned then Event.commissioned new ∷ [] else [])))
      → Step crypto d addr rssi adv_data events d'
