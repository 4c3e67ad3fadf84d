-- ===== src/Enocean/Types.antt =====
-- src/enocean/EnoceanTypes.hpp. Bytes and words are numbers; an array or a span is the list of its
-- elements. A callback is known by whether it is set, and a call of it is an `Event`.
use enocean_core.Base.{ℕ, Bool, false, List, replicate, Option, none}
use enocean_core.Base.Int.{ℤ, pos}

abbrev pub k_enocean_manufacturer_id : ℕ
k_enocean_manufacturer_id = 0x03DA

abbrev pub k_key_len : ℕ
k_key_len = 16

abbrev pub k_tag_len : ℕ
k_tag_len = 4

abbrev pub k_nonce_len : ℕ
k_nonce_len = 13

abbrev pub k_addr_len : ℕ
k_addr_len = 6

abbrev pub k_max_devices : ℕ
k_max_devices = 8

pub data ButtonAction : Type 0 where
  release press : ButtonAction

pub data DeviceType : Type 0 where
  switch sensor unknown : DeviceType

pub record BleAddr : Type 0 where
  pub addr : List ℕ
  pub type : ℕ

pub record EnoceanDevice : Type 0 where
  pub ble_addr : BleAddr
  pub key : List ℕ
  pub seq_num : ℕ
  pub rssi : ℤ
  pub type : DeviceType
  pub active : Bool

-- `EnoceanDevice{}`.
abbrev pub empty_device : EnoceanDevice
empty_device = record {
  ble_addr = record { addr = replicate k_addr_len 0; type = 0 };
  key = replicate k_key_len 0;
  seq_num = 0;
  rssi = pos 0;
  type = DeviceType.unknown;
  active = false;
}

pub record SensorData : Type 0 where
  pub occupancy : Option Bool
  pub light_sensor : Option ℕ
  pub battery_voltage : Option ℕ
  pub light_solar_cell : Option ℕ
  pub energy_lvl : Option ℕ
  pub temperature_cdeg : Option ℤ
  pub humidity : Option ℕ
  pub contact : Option Bool
  pub accel_status : Option ℕ
  pub accel_x_cg : Option ℤ
  pub accel_y_cg : Option ℤ
  pub accel_z_cg : Option ℤ

-- `SensorData{}`.
abbrev pub empty_sensor_data : SensorData
empty_sensor_data = record {
  occupancy = none;
  light_sensor = none;
  battery_voltage = none;
  light_solar_cell = none;
  energy_lvl = none;
  temperature_cdeg = none;
  humidity = none;
  contact = none;
  accel_status = none;
  accel_x_cg = none;
  accel_y_cg = none;
  accel_z_cg = none;
}

-- Which callbacks are set.
pub record EnoceanCallbacks : Type 0 where
  pub button : Bool
  pub sensor : Bool
  pub commissioned : Bool
  pub decommissioned : Bool
  pub loaded : Bool

-- One call of a callback, with its arguments. `opt_data` of length 0 is the null pointer.
pub data Event : Type 0 where
  button : EnoceanDevice → ButtonAction → ℕ → List ℕ → Event
  sensor : EnoceanDevice → SensorData → List ℕ → Event
  commissioned : EnoceanDevice → Event
