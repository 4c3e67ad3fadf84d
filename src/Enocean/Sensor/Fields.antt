-- ===== src/Enocean/Sensor/Fields.antt =====
-- What the sensor values are, independently of the code: a sequence of fields, how a sensor writes
-- them, and what they say.
use enocean_core.Base.{
  ℕ, ◌+◌, ◌*◌, ◌/◌, ◌%◌, ◌<◌, ◌≡◌, ◌≢◌, ◌⊎◌, ◌==◌, if◌then◌else◌, List, [], ◌∷◌, ◌++◌, length,
  Option, none, some,
}
use enocean_core.Base.Int.{ℤ, sub_ℕ}
use enocean_core.Enocean.Fields.Laws.{IsByte, le_u32}
use enocean_core.Enocean.Types.{SensorData, empty_sensor_data}

-- A value of 1, 2 or 4 bytes; a field of variable length; an embedded commissioning block.
pub data Field : Type 0 where
  byte : ℕ → ℕ → Field
  half : ℕ → ℕ → ℕ → Field
  word : ℕ → ℕ → ℕ → ℕ → ℕ → Field
  variable : ℕ → List ℕ → Field
  block : ℕ → List ℕ → Field

abbrev pub encode_field : Field → List ℕ
encode_field (byte t b0) = t ∷ b0 ∷ []
encode_field (half t b0 b1) = (t + 64) ∷ b0 ∷ b1 ∷ []
encode_field (word t b0 b1 b2 b3) = (t + 128) ∷ b0 ∷ b1 ∷ b2 ∷ b3 ∷ []
encode_field (variable header bytes) = header ∷ length bytes ∷ bytes
encode_field (block header bytes) = header ∷ bytes

abbrev pub encode : List Field → List ℕ
encode [] = []
encode (f ∷ fs) = encode_field f ++ encode fs

-- A type whose size is the header's, in six bits.
abbrev pub IsPlain : ℕ → Type 0
IsPlain t = (t < 64) × (t ≢ 0x3E) × (t ≢ 0x3C)

abbrev pub IsValid : Field → Type 0
IsValid (byte t b0) = IsPlain t × IsByte b0
IsValid (half t b0 b1) = IsPlain t × IsByte b0 × IsByte b1
IsValid (word t b0 b1 b2 b3) = IsPlain t × IsByte b0 × IsByte b1 × IsByte b2 × IsByte b3
IsValid (variable header bytes) = (header % 64 ≢ 0x3E) × ((header / 64 ≡ 3) ⊎ (header % 64 ≡ 0x3C))
IsValid (block header bytes) = (header % 64 ≡ 0x3E) × (length bytes ≡ 22)

-- The little-endian number that a field holds, if it is a value of this type.
abbrev pub value_of : ℕ → Field → Option ℕ
value_of type (byte t b0) = if t == type then some b0 else none
value_of type (half t b0 b1) = if t == type then some (b0 + b1 * 256) else none
value_of type (word t b0 b1 b2 b3) = if t == type then some (le_u32 b0 b1 b2 b3) else none
value_of type (variable header bytes) = none
value_of type (block header bytes) = none

-- The same, only of four bytes.
abbrev pub word_of : ℕ → Field → Option ℕ
word_of type (word t b0 b1 b2 b3) = if t == type then some (le_u32 b0 b1 b2 b3) else none
word_of type _ = none

abbrev pub replaced_by : {A : Type 0} → (ℕ → A) → Option ℕ → Option A → Option A
replaced_by meaning none before = before
replaced_by meaning (some n) before = some (meaning n)

-- What the last field says for which there is a number, or what was known before.
abbrev pub latest : {A : Type 0} → (ℕ → A) → (Field → Option ℕ) → List Field → Option A → Option A
latest meaning number [] before = before
latest meaning number (f ∷ fs) before =
    latest meaning number fs (replaced_by meaning (number f) before)

-- Two's complement in 16 bits: the upper bit weighs -32768.
abbrev pub signed : ℕ → ℤ
signed n = sub_ℕ (n % 32768) (n / 32768 % 2 * 32768)

-- An axis: ten bits that stand for -512 to 511, above bits of weights below `unit`.
abbrev pub axis : ℕ → ℕ → ℤ
axis unit n = sub_ℕ (n / unit % 1024) 512

-- What is known behind some fields, from what was known before them, type by type.
abbrev pub sensor_data_from : SensorData → List Field → SensorData
sensor_data_from d fs = record {
  temperature_cdeg = latest signed (value_of 0x00) fs d.temperature_cdeg;
  battery_voltage = latest (λ n. n / 2 % 65536) (value_of 0x01) fs d.battery_voltage;
  energy_lvl = latest (λ n. n / 2 % 256) (value_of 0x02) fs d.energy_lvl;
  light_solar_cell = latest (λ n. n % 65536) (value_of 0x04) fs d.light_solar_cell;
  light_sensor = latest (λ n. n % 65536) (value_of 0x05) fs d.light_sensor;
  humidity = latest (λ n. n % 256 / 2) (value_of 0x06) fs d.humidity;
  accel_status = latest (λ n. n / 1073741824) (word_of 0x0A) fs d.accel_status;
  accel_x_cg = latest (axis 1048576) (word_of 0x0A) fs d.accel_x_cg;
  accel_y_cg = latest (axis 1024) (word_of 0x0A) fs d.accel_y_cg;
  accel_z_cg = latest (axis 1) (word_of 0x0A) fs d.accel_z_cg;
  occupancy = latest (λ n. n == 2) (value_of 0x20) fs d.occupancy;
  contact = latest (λ n. n % 256 == 2) (value_of 0x23) fs d.contact;
}

abbrev pub sensor_data_of : List Field → SensorData
sensor_data_of fs = sensor_data_from empty_sensor_data fs

abbrev pub size : Field → ℕ
size f = length (encode_field f)

abbrev pub header_of : Field → ℕ
header_of (byte t b0) = t
header_of (half t b0 b1) = t + 64
header_of (word t b0 b1 b2 b3) = t + 128
header_of (variable header bytes) = header
header_of (block header bytes) = header
