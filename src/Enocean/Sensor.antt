-- ===== src/Enocean/Sensor.antt =====
-- src/enocean/EnoceanDriver.ipp: the loop of handle_sensor over the encoded sensor values. The
-- values are fields of a type, a size and that many bytes; the index is the source's `j`, and the
-- `while` loop takes fuel.
pub mod Total
pub mod Fields
mod Applied
mod Rounds
pub mod RoundTrip
pub mod Values
pub mod Axes
use enocean_core.Base.{
  ℕ, zero, suc, ◌+◌, ◌-◌, ◌*◌, ◌/◌, ◌^◌, not, ◌||◌, List, [], ◌∷◌, length, some, Run, done,
  out_of_fuel, ◌>>=◌, read, ltb, leb, ◌==◌, if◌then◌else◌, bit_or,
}
use enocean_core.Base.Bits.{◌<<◌, ◌>>◌, low_bits}
use enocean_core.Base.Int.{int16, sub_ℕ}
use enocean_core.Enocean.Types.{SensorData, empty_sensor_data}

abbrev pub k_tlv_size_shift : ℕ
k_tlv_size_shift = 6

abbrev pub k_tlv_size_var : ℕ
k_tlv_size_var = 0x03

abbrev pub k_tlv_type_optional : ℕ
k_tlv_type_optional = 0x3C

abbrev pub k_tlv_type_commissioning : ℕ
k_tlv_type_commissioning = 0x3E

abbrev pub k_tlv_commissioning_block : ℕ
k_tlv_commissioning_block = 22

-- `case 0x0A`: bits 31 and 30 are the status, and three signed fields of ten bits follow.
store_acceleration : ℕ → ℕ → SensorData → SensorData
store_acceleration val_len le_value d =
    if val_len == 4
    then record d {
      accel_status = some (low_bits (le_value >> 30) 8);
      accel_x_cg = some (sub_ℕ (low_bits (le_value >> 20) 10) 512);
      accel_y_cg = some (sub_ℕ (low_bits (le_value >> 10) 10) 512);
      accel_z_cg = some (sub_ℕ (low_bits le_value 10) 512);
    }
    else d

-- The `switch` over the field's type.
unfoldable pub store : ℕ → ℕ → ℕ → SensorData → SensorData
unfolding store_acceleration
store type_id val_len value d =
    if type_id == 0x00
    then record d { temperature_cdeg = some (int16 (low_bits value 16)) }
    else if type_id == 0x01
    then record d { battery_voltage = some (low_bits (value / 2) 16) }
    else if type_id == 0x02
    then record d { energy_lvl = some (low_bits (value / 2) 8) }
    else if type_id == 0x04
    then record d { light_solar_cell = some (low_bits value 16) }
    else if type_id == 0x05
    then record d { light_sensor = some (low_bits value 16) }
    else if type_id == 0x06
    then record d { humidity = some (low_bits value 8 / 2) }
    else if type_id == 0x0A
    then store_acceleration val_len value d
    else if type_id == 0x20
    then record d { occupancy = some (value == 0x02) }
    else if type_id == 0x23
    then record d { contact = some (low_bits value 8 == 0x02) }
    else d

-- The loop that assembles a value of `n` more bytes, from byte `b` on.
assemble : ℕ → List ℕ → ℕ → ℕ → ℕ → Run ℕ
assemble zero sensor_bytes j b value = done value
assemble (suc n) sensor_bytes j b value = do
  x ← read sensor_bytes (j + b)
  assemble n sensor_bytes j (b + 1) (bit_or value (x << (8 * b)))

-- A round with a field of variable length: `j` is behind the header, `next` the rest of the loop.
skip_variable : List ℕ → ℕ → (ℕ → Run SensorData) → SensorData → Run SensorData
skip_variable sensor_bytes j next d = if leb (length sensor_bytes) j then done d else do
  vlen ← read sensor_bytes j
  if ltb (length sensor_bytes - (j + 1)) vlen then done d else next (j + 1 + vlen)

-- A round with a value of `val_len` bytes.
take_value : List ℕ → ℕ → ℕ → ℕ → (ℕ → SensorData → Run SensorData) → SensorData → Run SensorData
unfolding assemble
take_value sensor_bytes j type_id val_len next d =
    if ltb (length sensor_bytes) (j + val_len) then done d else do
      value ← assemble val_len sensor_bytes j 0 0
      next (j + val_len) (store type_id val_len value d)

-- A round of the loop, `j` being behind the header.
pub field : List ℕ → ℕ → ℕ → (ℕ → SensorData → Run SensorData) → SensorData → Run SensorData
unfolding skip_variable take_value
field sensor_bytes header j next d =
    let type_id = low_bits header 6 in
    let size_bits = header >> k_tlv_size_shift in
    if type_id == k_tlv_type_commissioning
    then next
        (if leb (j + k_tlv_commissioning_block) (length sensor_bytes)
          then j + k_tlv_commissioning_block
          else length sensor_bytes)
        d
    else if size_bits == k_tlv_size_var || type_id == k_tlv_type_optional
    then skip_variable sensor_bytes j (λ k. next k d) d
    else take_value sensor_bytes j type_id (2 ^ size_bits) next d

pub decode : ℕ → List ℕ → ℕ → SensorData → Run SensorData
unfolding field
decode zero sensor_bytes j d = out_of_fuel
decode (suc fuel) sensor_bytes j d = if not (ltb j (length sensor_bytes)) then done d else do
  header ← read sensor_bytes j
  field sensor_bytes header (j + 1) (decode fuel sensor_bytes) d

-- Every round moves `j` forward, so one round more than the bytes there are is enough.
unfoldable pub decode_sensor_data : List ℕ → Run SensorData
unfolding decode store
decode_sensor_data sensor_bytes =
    decode (suc (length sensor_bytes)) sensor_bytes 0 empty_sensor_data
