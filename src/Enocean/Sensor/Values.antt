-- ===== src/Enocean/Sensor/Values.antt =====
-- What the values that handle_sensor decodes (src/enocean/EnoceanDriver.ipp) stand for: measurements,
-- as a sensor writes them into a telegram.
use enocean_core.Base.{
  ℕ, ◌+◌, ◌-◌, ◌*◌, ◌/◌, ◌%◌, ◌<◌, ◌≡◌, ◌∙◌, ap, arith, [], ◌∷◌, done, some, lt→ltb, le→ltb,
}
use enocean_core.Base.Bits.{low_bits, ◌>>◌}
use enocean_core.Base.Int.{ℤ, pos, negsuc, sub_ℕ, int16}
use enocean_core.Enocean.Types.{SensorData, empty_sensor_data}
use enocean_core.Enocean.Fields.Laws.{le_u32}
use enocean_core.Enocean.Sensor.{decode_sensor_data, store, store_acceleration}
use enocean_core.Enocean.Sensor.Fields.{Field}
use enocean_core.Enocean.Sensor.RoundTrip.{decode_sensor_data-apply_all}

-- Two's complement in 16 bits.
abbrev pub two_bytes : ℤ → ℕ
two_bytes (pos n) = n
two_bytes (negsuc n) = 65535 - n

abbrev pub IsInt16 : ℤ → Type 0
IsInt16 (pos n) = n < 32768
IsInt16 (negsuc n) = n < 32768

int16-two_bytes : (t : ℤ) → IsInt16 t → int16 (two_bytes t) ≡ t
int16-two_bytes (pos n) h = let small : n % 65536 ≡ n = omega arith in rw (small, lt→ltb n 32768 h)
int16-two_bytes (negsuc n) h =
    let small : (65535 - n) % 65536 ≡ 65535 - n = omega arith in
    let back : 65536 - (65535 - n) - 1 ≡ n = omega arith in
    rw (small, le→ltb (65535 - n) 32768 (omega arith), back)

two_bytes-lt : (t : ℤ) → IsInt16 t → two_bytes t < 65536
two_bytes-lt (pos n) h = omega arith
two_bytes-lt (negsuc n) h = omega arith

-- A temperature in hundredths of a degree, from -327.68 to 327.67, comes back from its field in a
-- telegram.
decode_sensor_data-temperature :
    (t : ℤ)
    → IsInt16 t
    → decode_sensor_data (0x40 ∷ two_bytes t % 256 ∷ two_bytes t / 256 ∷ [])
      ≡ done (record empty_sensor_data { temperature_cdeg = some t })
unfolding store
decode_sensor_data-temperature t h =
    let n = two_bytes t in
    let bound = two_bytes-lt t h in
    let whole : n % 256 + n / 256 * 256 ≡ n = omega arith in
    let low : low_bits n 16 ≡ n = omega (arith, bound) in
    decode_sensor_data-apply_all (Field.half 0 (n % 256) (n / 256) ∷ []) (
      (
        (omega arith, λ e. omega (arith, e), λ e. omega (arith, e)),
        omega arith,
        omega (arith, bound),
      ),
      tt,
    )
    ∙ ap (λ v. done (record empty_sensor_data { temperature_cdeg = some (int16 (low_bits v 16)) }))
        whole
    ∙ ap (λ v. done (record empty_sensor_data { temperature_cdeg = some (int16 v) })) low
    ∙ ap (λ v. done (record empty_sensor_data { temperature_cdeg = some v })) (int16-two_bytes t h)

-- An acceleration of four bytes: the status in the upper two bits, and three axes of ten bits each.
abbrev pub packed : ℕ → ℕ → ℕ → ℕ → ℕ
packed status x y z = z + y * 1024 + x * 1048576 + status * 1073741824

store-packed :
    (status x y z : ℕ) (d : SensorData)
    → status < 4
    → x < 1024
    → y < 1024
    → z < 1024
    → store 0x0A 4 (packed status x y z) d ≡ record d {
      accel_status = some status;
      accel_x_cg = some (sub_ℕ x 512);
      accel_y_cg = some (sub_ℕ y 512);
      accel_z_cg = some (sub_ℕ z 512);
    }
unfolding store store_acceleration
store-packed status x y z d hs hx hy hz =
    let n = packed status x y z in
    let top : low_bits (n >> 30) 8 ≡ status = omega arith in
    let in_x : low_bits (n >> 20) 10 ≡ x = omega arith in
    let in_y : low_bits (n >> 10) 10 ≡ y = omega arith in
    let in_z : low_bits n 10 ≡ z = omega arith in rw (top, in_x, in_y, in_z)

-- A status below 4 and three accelerations in hundredths of g from -5.12 to 5.11, which are written as
-- 512 more than they are, come back from their field in a telegram.
pub decode_sensor_data-packed :
    (status x y z : ℕ)
    → status < 4
    → x < 1024
    → y < 1024
    → z < 1024
    → (let n = packed status x y z in
        decode_sensor_data (0x8A ∷ n % 256 ∷ n / 256 % 256 ∷ n / 65536 % 256 ∷ n / 16777216 ∷ [])
        ≡ done (record empty_sensor_data {
          accel_status = some status;
          accel_x_cg = some (sub_ℕ x 512);
          accel_y_cg = some (sub_ℕ y 512);
          accel_z_cg = some (sub_ℕ z 512);
        }))
decode_sensor_data-packed status x y z hs hx hy hz =
    let n = packed status x y z in
    let bound : n < 4294967296 = omega arith in
    let whole : le_u32 (n % 256) (n / 256 % 256) (n / 65536 % 256) (n / 16777216) ≡ n =
      omega arith in
    decode_sensor_data-apply_all
      (Field.word 0x0A (n % 256) (n / 256 % 256) (n / 65536 % 256) (n / 16777216) ∷ [])
      (
        (
          (omega arith, λ e. omega (arith, e), λ e. omega (arith, e)),
          omega arith,
          omega arith,
          omega arith,
          omega (arith, bound),
        ),
        tt,
      )
    ∙ ap (λ v. done (store 0x0A 4 v empty_sensor_data)) whole
    ∙ ap done (store-packed status x y z empty_sensor_data hs hx hy hz)
