-- ===== src/Tests/Parts.antt =====
-- The parts of the driver on concrete inputs.
use enocean_core.Base.{some, ℕ, ◌≡◌, refl, arith, [], ◌∷◌, ◌++◌, All, done, out_of_bounds}
use enocean_core.Enocean.Types.{empty_sensor_data}
use enocean_core.Enocean.Advert.{extract_manufacturer_data}
use enocean_core.Enocean.Advert.Structures.{
  AdStructure, encode, extract_manufacturer_data-encode, extract_manufacturer_data-truncated,
}
use enocean_core.Enocean.Fields.Laws.{build_nonce-injective}
use enocean_core.Enocean.Sensor.{decode_sensor_data}
use enocean_core.Enocean.Sensor.Fields.{IsValid}
use enocean_core.Enocean.Sensor.Fields
use enocean_core.Enocean.Sensor.RoundTrip.{decode_sensor_data-encode}
use enocean_core.Base.Int.{pos, negsuc}
use enocean_core.Enocean.Sensor.Values.{decode_sensor_data-packed}
use enocean_core.Tests.Data.{
  switch_addr, switch_bytes, structures, structures-IsWellFormed, sensor_fields, measured,
}

extract_manufacturer_data-encode_example :
    extract_manufacturer_data (encode (structures switch_bytes) ++ (0 ∷ 7 ∷ [])) ≡ done switch_bytes
extract_manufacturer_data-encode_example =
    extract_manufacturer_data-encode (structures switch_bytes) (0 ∷ 7 ∷ [])
      (structures-IsWellFormed switch_bytes) refl

abbrev flags : AdStructure
flags = record { type = 1; payload = 6 ∷ [] }

extract_manufacturer_data-truncated_example :
    extract_manufacturer_data (2 ∷ 1 ∷ 6 ∷ 13 ∷ 0xFF ∷ 0xDA ∷ 0x03 ∷ switch_bytes) ≡ out_of_bounds
extract_manufacturer_data-truncated_example =
    extract_manufacturer_data-truncated (flags ∷ []) switch_bytes
      ((λ h. absurd (omega (arith, h)), refl), tt)

decode_sensor_data-encode_example : decode_sensor_data (Fields.encode sensor_fields) ≡ done measured
decode_sensor_data-encode_example = decode_sensor_data-encode sensor_fields sensor_fields-IsValid
  where
    sensor_fields-IsValid : All IsValid sensor_fields
    sensor_fields-IsValid = ground arith

abbrev number : ℕ
number = 258

build_nonce-injective_example : (switch_addr ≡ switch_addr) × (number ≡ number)
build_nonce-injective_example =
    build_nonce-injective switch_addr switch_addr number number refl refl (omega arith)
      (omega arith) refl

decode_sensor_data-packed_example :
    decode_sensor_data (0x8A ∷ 100 ∷ 0 ∷ 0 ∷ 0x60 ∷ [])
    ≡ done (record empty_sensor_data {
      accel_status = some 1;
      accel_x_cg = some (pos 0);
      accel_y_cg = some (negsuc 511);
      accel_z_cg = some (negsuc 411);
    })
decode_sensor_data-packed_example =
    decode_sensor_data-packed 1 512 0 100 (omega arith) (omega arith) (omega arith) (omega arith)
