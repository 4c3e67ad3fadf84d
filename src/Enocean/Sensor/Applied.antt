-- ===== src/Enocean/Sensor/Applied.antt =====
-- The switch over the types in handle_sensor (src/enocean/EnoceanDriver.ipp), on one field and on a
-- sequence of fields, and what these say.
use enocean_core.Base.{
  ℕ, ◌+◌, ◌*◌, ◌/◌, ◌%◌, ◌<◌, ◌≡◌, refl, ◌∙◌, ap, arith, List, [], ◌∷◌, Option, none, some, ◌==◌,
  All, if◌then◌else◌,
}
use enocean_core.Base.Int.{int16}
use enocean_core.Enocean.Fields.Laws.{le_u32}
use enocean_core.Enocean.Types.{SensorData}
use enocean_core.Enocean.Sensor.{store, store_acceleration}
use enocean_core.Enocean.Sensor.Fields.{
  Field, byte, half, word, variable, block, IsValid, replaced_by, signed, axis, sensor_data_from,
}

-- What the switch makes of a field.
abbrev pub apply : Field → SensorData → SensorData
apply (byte t b0) = store t 1 b0
apply (half t b0 b1) = store t 2 (b0 + b1 * 256)
apply (word t b0 b1 b2 b3) = store t 4 (le_u32 b0 b1 b2 b3)
apply (variable header bytes) = λ d. d
apply (block header bytes) = λ d. d

abbrev pub apply_all : List Field → SensorData → SensorData
apply_all [] d = d
apply_all (f ∷ fs) d = apply_all fs (apply f d)

int16-signed : (n : ℕ) → int16 n ≡ signed n
int16-signed n = ground arith

-- The number, if the types are the same.
abbrev if_type : ℕ → ℕ → ℕ → Option ℕ
if_type type t n = if t == type then some n else none

-- What a number of type `t` says. `wide` is the number, if it is an acceleration of four bytes.
abbrev stored : ℕ → ℕ → Option ℕ → SensorData → SensorData
stored t n wide d = record {
  temperature_cdeg = replaced_by signed (if_type 0x00 t n) d.temperature_cdeg;
  battery_voltage = replaced_by (λ m. m / 2 % 65536) (if_type 0x01 t n) d.battery_voltage;
  energy_lvl = replaced_by (λ m. m / 2 % 256) (if_type 0x02 t n) d.energy_lvl;
  light_solar_cell = replaced_by (λ m. m % 65536) (if_type 0x04 t n) d.light_solar_cell;
  light_sensor = replaced_by (λ m. m % 65536) (if_type 0x05 t n) d.light_sensor;
  humidity = replaced_by (λ m. m % 256 / 2) (if_type 0x06 t n) d.humidity;
  accel_status = replaced_by (λ m. m / 1073741824) wide d.accel_status;
  accel_x_cg = replaced_by (axis 1048576) wide d.accel_x_cg;
  accel_y_cg = replaced_by (axis 1024) wide d.accel_y_cg;
  accel_z_cg = replaced_by (axis 1) wide d.accel_z_cg;
  occupancy = replaced_by (λ m. m == 2) (if_type 0x20 t n) d.occupancy;
  contact = replaced_by (λ m. m % 256 == 2) (if_type 0x23 t n) d.contact;
}

SensorData-ext :
    {x y : SensorData}
    → x.occupancy ≡ y.occupancy
    → x.light_sensor ≡ y.light_sensor
    → x.battery_voltage ≡ y.battery_voltage
    → x.light_solar_cell ≡ y.light_solar_cell
    → x.energy_lvl ≡ y.energy_lvl
    → x.temperature_cdeg ≡ y.temperature_cdeg
    → x.humidity ≡ y.humidity
    → x.contact ≡ y.contact
    → x.accel_status ≡ y.accel_status
    → x.accel_x_cg ≡ y.accel_x_cg
    → x.accel_y_cg ≡ y.accel_y_cg
    → x.accel_z_cg ≡ y.accel_z_cg
    → x ≡ y
SensorData-ext p0 p1 p2 p3 p4 p5 p6 p7 p8 p9 p10 p11 = λ i. record {
  occupancy = p0 i;
  light_sensor = p1 i;
  battery_voltage = p2 i;
  light_solar_cell = p3 i;
  energy_lvl = p4 i;
  temperature_cdeg = p5 i;
  humidity = p6 i;
  contact = p7 i;
  accel_status = p8 i;
  accel_x_cg = p9 i;
  accel_y_cg = p10 i;
  accel_z_cg = p11 i;
}

-- The switch, one member of the data at a time.
store-stored :
    (t val_len n : ℕ) (d : SensorData)
    → n < 4294967296
    → store t val_len n d ≡ stored t n (if val_len == 4 then if_type 0x0A t n else none) d
unfolding store store_acceleration
store-stored t val_len n d h =
    SensorData-ext (ground arith) (ground arith) (ground arith) (ground arith) (ground arith)
      (ground (arith, int16-signed (n % 65536))) (ground arith) (ground arith) (ground arith)
      (ground arith) (ground arith) (ground arith)

apply-sensor_data_from :
    (f : Field) (d : SensorData) → IsValid f → apply f d ≡ sensor_data_from d (f ∷ [])
apply-sensor_data_from (byte t b0) d v = store-stored t 1 b0 d (omega (arith, v.1))
apply-sensor_data_from (half t b0 b1) d v =
    store-stored t 2 (b0 + b1 * 256) d (omega (arith, v.1, v.2))
apply-sensor_data_from (word t b0 b1 b2 b3) d v =
    store-stored t 4 (le_u32 b0 b1 b2 b3) d (omega (arith, v.1, v.2, v.3, v.4))
apply-sensor_data_from (variable header bytes) d v = refl
apply-sensor_data_from (block header bytes) d v = refl

pub apply_all-sensor_data_from :
    (fs : List Field) (d : SensorData) → All IsValid fs → apply_all fs d ≡ sensor_data_from d fs
apply_all-sensor_data_from [] d v = refl
apply_all-sensor_data_from (f ∷ fs) d v =
    ap (apply_all fs) (apply-sensor_data_from f d v.0)
    ∙ apply_all-sensor_data_from fs (sensor_data_from d (f ∷ [])) v.1
