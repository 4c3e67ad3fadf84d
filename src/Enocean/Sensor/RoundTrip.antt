-- ===== src/Enocean/Sensor/RoundTrip.antt =====
-- The loop of handle_sensor (src/enocean/EnoceanDriver.ipp) on values that were written as fields.
use enocean_core.Base.{
  ℕ, zero, suc, ◌+◌, ◌<◌, ◌≡◌, refl, ◌∙◌, ap, arith, List, [], ◌∷◌, ◌++◌, length, length-append,
  get_elem?-of_drop, drop-drop, length-drop, drop, drop-prefix, All, done, read, get_elem?, lt→ltb,
  le→ltb, lt-of-get_elem?, some,
}
use enocean_core.Enocean.Types.{SensorData, empty_sensor_data}
use enocean_core.Enocean.Sensor.{decode, decode_sensor_data}
use enocean_core.Enocean.Sensor.Fields.{
  Field, byte, encode_field, encode, IsValid, sensor_data_of, size, header_of,
}
use enocean_core.Enocean.Sensor.Applied.{apply, apply_all, apply_all-sensor_data_from}
use enocean_core.Enocean.Sensor.Rounds.{round_lem}

size_pos : (f : Field) → 0 < size f
size_pos (byte t b0) = omega arith
size_pos _ = omega arith

header_first :
    (f : Field) (rest : List ℕ) → get_elem? (encode_field f ++ rest) 0 ≡ some (header_of f)
header_first (byte t b0) rest = refl
header_first _ rest = refl

decode-round :
    (f : Field) (fuel : ℕ) (xs : List ℕ) (j : ℕ) (d : SensorData) (rest : List ℕ)
    → drop j xs ≡ encode_field f ++ rest
    → IsValid f
    → decode (suc fuel) xs j d ≡ decode fuel xs (j + size f) (apply f d)
unfolding decode
decode-round f fuel xs j d rest e v =
    let here : get_elem? xs j ≡ some (header_of f) =
      get_elem?-of_drop xs j 0 j e (omega arith) ∙ header_first f rest in
    rw (lt→ltb j (length xs) (lt-of-get_elem? xs j here), here, read)
      (round_lem f xs j (decode fuel xs) d rest e v)

decode-encode :
    (fs : List Field) (fuel : ℕ) (xs : List ℕ) (j : ℕ) (d : SensorData)
    → drop j xs ≡ encode fs
    → All IsValid fs
    → length (encode fs) < fuel
    → decode fuel xs j d ≡ done (apply_all fs d)
decode-encode fs zero xs j d e v h = absurd (omega arith)
decode-encode [] (suc fuel) xs j d e v h =
    unfold decode in
    rw (le→ltb j (length xs) (omega (arith, length-drop j xs, ap length e)), decode)
decode-encode (f ∷ fs) (suc fuel) xs j d e v h =
    decode-round f fuel xs j d (encode fs) e v.0
    ∙ decode-encode fs fuel xs (j + size f) (apply f d)
        (drop-drop xs j (size f) (j + size f) refl
          ∙ ap (drop (size f)) e
          ∙ drop-prefix (encode_field f) (encode fs) (size f) refl)
        v.1 (omega (arith, size_pos f, length-append (encode_field f) (encode fs)))

pub decode_sensor_data-apply_all :
    (fs : List Field)
    → All IsValid fs
    → decode_sensor_data (encode fs) ≡ done (apply_all fs empty_sensor_data)
unfolding decode_sensor_data
decode_sensor_data-apply_all fs v =
    decode-encode fs (suc (length (encode fs))) (encode fs) 0 empty_sensor_data refl v (omega arith)

-- Sensor values written as a sequence of fields (values of 1, 2 or 4 bytes in little-endian order,
-- fields of variable length, embedded commissioning blocks) decode to the data in which each
-- measurement is what the last value of its type says, by a table of types that is written down
-- independently of the decoder: type 0 is the temperature in two's complement, 1 the battery's voltage
-- and 2 the energy level, both doubled, 4 and 5 the light on the solar cell and on the sensor, 6 the
-- humidity doubled, 0x0A in four bytes the acceleration, 0x20 the occupancy and 0x23 the contact, of
-- which the value 2 means that there is one. Measurements of whose type there is no value are missing.
pub decode_sensor_data-encode :
    (fs : List Field) → All IsValid fs → decode_sensor_data (encode fs) ≡ done (sensor_data_of fs)
decode_sensor_data-encode fs v =
    decode_sensor_data-apply_all fs v ∙ ap done (apply_all-sensor_data_from fs empty_sensor_data v)
