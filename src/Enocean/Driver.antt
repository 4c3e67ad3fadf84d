-- ===== src/Enocean/Driver.antt =====
-- src/enocean/EnoceanDriver.hpp and EnoceanDriver.ipp: the driver's state and its operations. A
-- call returns the state that it leaves and the callbacks that it called, in order. The log lines
-- are not modelled.
pub mod Steps
pub mod Refine
pub mod History
pub mod Invariant
pub mod Persist
pub mod Replay
pub mod Receive
pub mod Commission
pub mod Safe
pub mod Isolation
pub mod Reachable
use enocean_core.Base.{
  ℕ, ◌+◌, Bool, true, false, not, ◌&&◌, ◌||◌, List, [], ◌∷◌, length, set, replicate, Option, none,
  some, Run, done, ◌>>=◌, read, subspan, copy_over, ltb, leb, ◌==◌, if◌then◌else◌,
}
use enocean_core.Base.Int.{ℤ}
use enocean_core.Crypto.{Decrypt}
use enocean_core.ErrorHandler.{ErrorHandler}
use enocean_core.ErrorHandler
use enocean_core.Errors.Enocean.{EnoceanError}
use enocean_core.Enocean.Types.{
  k_key_len, k_addr_len, k_max_devices, DeviceType, EnoceanDevice, empty_device, EnoceanCallbacks,
  Event,
}
use enocean_core.Enocean.Advert.{extract_manufacturer_data}
use enocean_core.Enocean.Fields.{read_seq, detect_device_type}
use enocean_core.Enocean.Table.{find_device, allocate_device, count_active}
use enocean_core.Enocean.Telegram.{k_data_payload_min, Handled, handle_switch, handle_sensor}

abbrev pub k_commissioning_payload_min : ℕ
k_commissioning_payload_min = 22

abbrev pub k_key_offset : ℕ
k_key_offset = 4

abbrev pub k_stm_commissioning_marker : ℕ
k_stm_commissioning_marker = 0x3E

abbrev pub k_stm_commissioning_payload_len : ℕ
k_stm_commissioning_payload_len = 27

abbrev pub k_adv_nonconn_ind : ℕ
k_adv_nonconn_ind = 0x03

abbrev pub k_addr_random : ℕ
k_addr_random = 0x01

pub record EnoceanDriver : Type 0 where
  pub callbacks : EnoceanCallbacks
  pub initialised : Bool
  pub commissioning_enabled : Bool
  pub devices : List EnoceanDevice

-- The constructor.
unfoldable pub construct : EnoceanCallbacks → EnoceanDriver
construct callbacks = record {
  callbacks = callbacks;
  initialised = false;
  commissioning_enabled = false;
  devices = replicate k_max_devices empty_device;
}

-- `for (auto& dev : devices_) dev = EnoceanDevice{};`
pub clear : List EnoceanDevice → List EnoceanDevice
clear [] = []
clear (_ ∷ devices) = empty_device ∷ clear devices

unfoldable pub init : EnoceanDriver → EnoceanDriver × ErrorHandler (Unit {0}) EnoceanError
unfolding clear
init d = (
  record d { devices = clear d.devices; commissioning_enabled = false; initialised = true },
  ErrorHandler.value tt,
)

unfoldable pub enable_commissioning : EnoceanDriver → EnoceanDriver
enable_commissioning d = record d { commissioning_enabled = true }

unfoldable pub disable_commissioning : EnoceanDriver → EnoceanDriver
disable_commissioning d = record d { commissioning_enabled = false }

abbrev pub device_count : EnoceanDriver → ℕ
device_count d = count_active d.devices

-- The key starts one byte later in the telegram of an STM-550B.
abbrev pub is_stm_format : List ℕ → ℕ → Bool
is_stm_format mfr_payload marker =
    length mfr_payload == k_stm_commissioning_payload_len && marker == k_stm_commissioning_marker

abbrev pub is_sensor : DeviceType → Bool
is_sensor DeviceType.sensor = true
is_sensor _ = false

abbrev pub Commissioned : Type 0
Commissioned = EnoceanDriver × Bool × List Event

-- `device != nullptr` after `find_device`: the known device gets a new key.
pub recommission : EnoceanDriver → ℕ × EnoceanDevice → ℤ → ℕ → List ℕ → Commissioned
recommission d (i, device) rssi seq key =
    let device' = record device { seq_num = seq; rssi = rssi; key = key } in
    (record d { devices = set d.devices i device' }, true, [])

-- The writes to a free slot, and the callback.
pub register :
    EnoceanDriver → ℕ × EnoceanDevice → List ℕ → ℕ → ℤ → ℕ → DeviceType → List ℕ → Run Commissioned
register d (i, device) addr addr_type rssi seq dev_type key = do
  stored ← copy_over addr device.ble_addr.addr
  let device' = record device {
    active = true;
    seq_num = seq;
    rssi = rssi;
    type = dev_type;
    ble_addr = record { addr = stored; type = addr_type };
    key = key;
  }
  done (
    record d { devices = set d.devices i device' },
    true,
    if d.callbacks.commissioned then Event.commissioned device' ∷ [] else [],
  )

-- From `find_device` on.
unfoldable pub store_device :
    EnoceanDriver → List ℕ → ℕ → ℤ → ℕ → DeviceType → List ℕ → Run Commissioned
unfolding recommission register
store_device d addr addr_type rssi seq dev_type key = elim (find_device addr d.devices) [
  | some known ↦ done (recommission d known rssi seq key)
  | none ↦ elim (allocate_device d.devices) [
    | some free ↦ register d free addr addr_type rssi seq dev_type key
    | none ↦ done (d, false, [])
  ]
]

-- handle_commissioning, from the test for the telegram of an STM-550B on.
abbrev pub store_key :
    EnoceanDriver → List ℕ → ℕ → ℤ → List ℕ → ℕ → DeviceType → ℕ → Run Commissioned
store_key d addr addr_type rssi mfr_payload seq dev_type marker =
    let stm_format = is_stm_format mfr_payload marker in
    let key_offset = if stm_format then k_key_offset + 1 else k_key_offset in
    if is_sensor dev_type && not stm_format
    then done (d, false, [])
    else if ltb (length mfr_payload) (key_offset + k_key_len)
    then done (d, false, [])
    else do
      key ← subspan mfr_payload key_offset k_key_len
      store_device d addr addr_type rssi seq dev_type key

unfoldable pub handle_commissioning : EnoceanDriver → List ℕ → ℕ → ℤ → List ℕ → Run Commissioned
handle_commissioning d addr addr_type rssi mfr_payload =
    if ltb (length mfr_payload) k_commissioning_payload_min then done (d, false, []) else do
      seq ← read_seq mfr_payload
      dev_type ← detect_device_type addr
      marker ← read mfr_payload k_key_offset
      store_key d addr addr_type rssi mfr_payload seq dev_type marker

-- handle_switch for a switch, and handle_sensor for any other type.
abbrev pub handle_data :
    Decrypt → EnoceanCallbacks → DeviceType → EnoceanDevice → List ℕ → Run Handled
handle_data crypto callbacks DeviceType.switch = handle_switch crypto callbacks
handle_data crypto callbacks _ = handle_sensor crypto callbacks

-- `if (device != nullptr)`: the handlers work on the slot itself.
unfoldable pub process_known :
    Decrypt → EnoceanDriver → ℕ × EnoceanDevice → ℤ → List ℕ → Run (EnoceanDriver × List Event)
process_known crypto d (i, device) rssi mfr_payload = do
  handled ← handle_data crypto d.callbacks device.type (record device { rssi = rssi }) mfr_payload
  done (record d { devices = set d.devices i handled.0 }, handled.2)

unfoldable pub process_unknown :
    EnoceanDriver → List ℕ → ℕ → ℤ → List ℕ → Run (EnoceanDriver × List Event)
process_unknown d addr addr_type rssi mfr_payload =
    if leb k_commissioning_payload_min (length mfr_payload) && d.commissioning_enabled
    then (do
      commissioned ← handle_commissioning d addr addr_type rssi mfr_payload
      done (commissioned.0, commissioned.2))
    else done (d, [])

-- From the extracted payload on.
unfoldable pub process_payload :
    Decrypt → EnoceanDriver → List ℕ → ℕ → ℤ → List ℕ → Run (EnoceanDriver × List Event)
process_payload crypto d addr addr_type rssi mfr_payload =
    if length mfr_payload == 0
    then done (d, [])
    else if ltb (length mfr_payload) k_data_payload_min
    then done (d, [])
    else elim (find_device addr d.devices) [
      | some known ↦ process_known crypto d known rssi mfr_payload
      | none ↦ process_unknown d addr addr_type rssi mfr_payload
    ]

-- process_advertisement of an initialised driver.
unfoldable pub process_initialised :
    Decrypt → EnoceanDriver → List ℕ → ℕ → ℕ → ℤ → List ℕ → Run (EnoceanDriver × List Event)
process_initialised crypto d addr addr_type adv_type rssi adv_data =
    if not (length addr == k_addr_len)
    then done (d, [])
    else if not (adv_type == k_adv_nonconn_ind) || not (addr_type == k_addr_random)
    then done (d, [])
    else do
      mfr_payload ← extract_manufacturer_data adv_data
      process_payload crypto d addr addr_type rssi mfr_payload

unfoldable pub process_advertisement :
    Decrypt → EnoceanDriver → List ℕ → ℕ → ℕ → ℤ → List ℕ → Run (EnoceanDriver × List Event)
process_advertisement crypto d addr addr_type adv_type rssi adv_data =
    if not d.initialised
    then done (d, [])
    else process_initialised crypto d addr addr_type adv_type rssi adv_data

-- The trampoline: `ctx` is the driver, or null.
unfoldable pub advertisement_cb :
    Decrypt
    → Option EnoceanDriver
    → List ℕ
    → ℕ
    → ℕ
    → ℤ
    → List ℕ
    → Run (Option EnoceanDriver × List Event)
advertisement_cb crypto none addr addr_type adv_type rssi adv_data = done (none, [])
advertisement_cb crypto (some d) addr addr_type adv_type rssi adv_data = do
  after ← process_advertisement crypto d addr addr_type adv_type rssi adv_data
  done (some after.0, after.1)
