-- ===== src/Tests/Data.antt =====
-- A backend, devices, telegrams and a driver to run the model on.
use enocean_core.Base.{
  ℕ, ◌+◌, ◌%◌, ◌^◌, ◌<◌, ◌≡◌, refl, arith, true, false, List, [], ◌∷◌, ◌++◌, All, length, replicate,
  set, none, some, ◌==◌,
}
use enocean_core.Base.Int.{pos, negsuc}
use enocean_core.Crypto.{Decrypt}
use enocean_core.Enocean.Types.{
  DeviceType, EnoceanDevice, empty_device, EnoceanCallbacks, SensorData,
}
use enocean_core.Enocean.Advert.Structures.{AdStructure, encode, IsWellFormed}
use enocean_core.Enocean.Table.{count_active, find_device}
use enocean_core.Enocean.Table.Invariant.{IsTable, IsTable-register, find_device-IsFresh}
use enocean_core.Enocean.Driver.{EnoceanDriver, construct}
use enocean_core.Enocean.Driver.Invariant.{construct-IsTable}
use enocean_core.Enocean.Driver.Receive.{Carries, Knows}
use enocean_core.Enocean.Driver.Commission.{Accepts}
use enocean_core.Enocean.Sensor.Fields.{Field}
use enocean_core.Enocean.Sensor.Fields
use enocean_core.Enocean.Telegram.Accept.{numbered}

abbrev pub sum : List ℕ → ℕ
sum [] = 0
sum (x ∷ xs) = x + sum xs

-- Accepts the tag whose first byte is the sum of the key, the nonce and the additional data.
abbrev pub sum_backend : Decrypt
sum_backend key nonce aad ciphertext (t ∷ rest) room = t == (sum key + sum nonce + sum aad) % 256
sum_backend key nonce aad ciphertext [] room = false

abbrev pub callbacks : EnoceanCallbacks
callbacks = record {
  button = true;
  sensor = true;
  commissioned = true;
  decommissioned = false;
  loaded = false;
}

abbrev pub key : List ℕ
key = 1 ∷ replicate 15 7

abbrev pub switch_addr : List ℕ
switch_addr = 1 ∷ 2 ∷ 3 ∷ 4 ∷ 0x15 ∷ 0xE2 ∷ []

abbrev pub sensor_addr : List ℕ
sensor_addr = 1 ∷ 2 ∷ 3 ∷ 4 ∷ 0 ∷ 0xE5 ∷ []

abbrev pub device : List ℕ → DeviceType → EnoceanDevice
device addr type = record {
  ble_addr = record { addr = addr; type = 1 };
  key = key;
  seq_num = 1;
  rssi = pos 0;
  type = type;
  active = true;
}

abbrev pub a_switch : EnoceanDevice
a_switch = device switch_addr DeviceType.switch

abbrev pub a_sensor : EnoceanDevice
a_sensor = device sensor_addr DeviceType.sensor

-- A driver that knows one device, in slot 0.
abbrev pub driver : EnoceanDevice → EnoceanDriver
driver dev = record {
  callbacks = callbacks;
  initialised = true;
  commissioning_enabled = true;
  devices = set (replicate 8 empty_device) 0 dev;
}

empty-IsTable : IsTable (replicate 8 empty_device)
empty-IsTable = unfold construct in construct-IsTable callbacks

find_in_empty : (addr : List ℕ) → find_device addr (replicate 8 empty_device) ≡ none
find_in_empty addr = unfold find_device in refl

pub driver-IsTable :
    (dev : EnoceanDevice)
    → length dev.key ≡ 16
    → length dev.ble_addr.addr ≡ 6
    → dev.seq_num < 2 ^ 32
    → IsTable (driver dev).devices
driver-IsTable dev key_len addr_len bound =
    IsTable-register (replicate 8 empty_device) 0 dev empty-IsTable
      (find_device-IsFresh dev.ble_addr.addr (replicate 8 empty_device) empty-IsTable addr_len
        (find_in_empty dev.ble_addr.addr))
      (record { key_len = key_len; addr_len = addr_len; seq_num_lt = bound })

pub driver-Knows :
    (addr : List ℕ) (type : DeviceType)
    → length addr ≡ 6
    → Knows (driver (device addr type)) 0 (device addr type)
driver-Knows addr type len = record {
  ready = refl;
  table = driver-IsTable (device addr type) refl len (omega arith);
  at = refl;
  active = refl;
}

-- A driver that knows no device.
abbrev pub fresh_driver : EnoceanDriver
fresh_driver = record (driver empty_device) { devices = replicate 8 empty_device }

pub fresh_driver-Accepts : (addr : List ℕ) → length addr ≡ 6 → Accepts fresh_driver addr
fresh_driver-Accepts addr len = record {
  ready = refl;
  enabled = refl;
  table = empty-IsTable;
  room = unfold count_active in omega arith;
  addr_len = len;
  unknown = find_in_empty addr;
}

-- Flags, and then the telegram.
abbrev pub structures : List ℕ → List AdStructure
structures p =
    record { type = 1; payload = 6 ∷ [] } ∷ record { type = 0xFF; payload = 0xDA ∷ 0x03 ∷ p } ∷ []

abbrev pub advert : List ℕ → List ℕ
advert p = encode (structures p) ++ []

pub structures-IsWellFormed : (p : List ℕ) → All IsWellFormed (structures p)
structures-IsWellFormed p = (λ h. absurd (omega (arith, h)), (λ _. omega arith, tt))

pub advert-Carries : (p : List ℕ) → Carries (advert p) p
advert-Carries p = record {
  structures = structures p;
  rest = [];
  well_formed = structures-IsWellFormed p;
  ends = tt;
  bytes = refl;
  telegram = refl;
}

abbrev pub switch_bytes : List ℕ
switch_bytes = numbered 2 0 0 0 (3 ∷ 114 ∷ 0 ∷ 0 ∷ 0 ∷ [])

-- A value of each type, one of an unknown type, two fields to skip, and a second humidity.
abbrev pub sensor_fields : List Field
sensor_fields =
    Field.half 0 0x6A 0xFF
    ∷ Field.half 1 0x70 0x17
    ∷ Field.byte 2 200
    ∷ Field.variable 0x3C (1 ∷ 2 ∷ [])
    ∷ Field.half 4 0xE8 3
    ∷ Field.half 5 0xF4 1
    ∷ Field.byte 6 50
    ∷ Field.word 0x0A 100 0 0 0x60
    ∷ Field.byte 7 9
    ∷ Field.byte 0x20 2
    ∷ Field.byte 0x23 1
    ∷ Field.block 0x3E (replicate 22 7)
    ∷ Field.byte 6 99
    ∷ []

abbrev pub measured : SensorData
measured = record {
  occupancy = some true;
  light_sensor = some 500;
  battery_voltage = some 3000;
  light_solar_cell = some 1000;
  energy_lvl = some 100;
  temperature_cdeg = some (negsuc 149);
  humidity = some 49;
  contact = some false;
  accel_status = some 1;
  accel_x_cg = some (pos 0);
  accel_y_cg = some (negsuc 511);
  accel_z_cg = some (negsuc 411);
}

abbrev pub sensor_tag : List ℕ
sensor_tag =
    (sum key + (sum sensor_addr + 2) + (2 + sum (Fields.encode sensor_fields))) % 256
    ∷ 0
    ∷ 0
    ∷ 0
    ∷ []

abbrev pub sensor_bytes : List ℕ
sensor_bytes = numbered 2 0 0 0 (Fields.encode sensor_fields ++ sensor_tag)
