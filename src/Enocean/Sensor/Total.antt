-- ===== src/Enocean/Sensor/Total.antt =====
-- Bounds and termination of the loop of handle_sensor (src/enocean/EnoceanDriver.ipp).
use enocean_core.Base.{
  ℕ, zero, suc, ◌+◌, ◌-◌, ◌*◌, ◌≤◌, ◌<◌, refl, arith, inl, inr, List, length, Run, read, Total,
  bind-Total, read-done, get_or, ltb, leb, ◌==◌, ◌||◌, Bool-cases, bit_or,
}
use enocean_core.Base.Bits.{◌<<◌, ◌>>◌, low_bits}
use enocean_core.Enocean.Types.{SensorData, empty_sensor_data}
use enocean_core.Enocean.Sensor.{
  assemble, skip_variable, take_value, field, decode, decode_sensor_data, k_tlv_size_shift,
  k_tlv_size_var, k_tlv_type_optional, k_tlv_type_commissioning,
}

assemble-Total :
    (n : ℕ) (xs : List ℕ) (j b value : ℕ) → j + b + n ≤ length xs → Total (assemble n xs j b value)
unfolding assemble
assemble-Total zero xs j b value h = (value, refl)
assemble-Total (suc n) xs j b value h =
    bind-Total (read xs (j + b)) _ (get_or xs (j + b) 0, read-done xs (j + b) 0 (omega arith))
      λ x. assemble-Total n xs j (b + 1) (bit_or value (x << (8 * b))) (omega arith)

skip_variable-Total :
    (xs : List ℕ) (j : ℕ) (next : ℕ → Run SensorData) (d : SensorData)
    → ((k : ℕ) → j < k → Total (next k))
    → Total (skip_variable xs j next d)
unfolding skip_variable
skip_variable-Total xs j next d h = elim (Bool-cases (leb (length xs) j)) [
  | inl short ↦ rw short (d, refl)
  | inr more ↦ rw more (
      bind-Total (read xs j) _ (get_or xs j 0, read-done xs j 0 (ground arith))
        λ vlen. elim (Bool-cases (ltb (length xs - (j + 1)) vlen)) [
          | inl cut ↦ rw cut (d, refl)
          | inr fits ↦ rw fits (h (j + 1 + vlen) (omega arith))
        ])
]

take_value-Total :
    (xs : List ℕ) (j type_id val_len : ℕ) (next : ℕ → SensorData → Run SensorData) (d : SensorData)
    → ((k : ℕ) (d' : SensorData) → j ≤ k → Total (next k d'))
    → Total (take_value xs j type_id val_len next d)
unfolding take_value
take_value-Total xs j type_id val_len next d h = elim (Bool-cases (ltb (length xs) (j + val_len))) [
  | inl short ↦ rw short (d, refl)
  | inr fits ↦ rw fits (
      bind-Total (assemble val_len xs j 0 0) _ (assemble-Total val_len xs j 0 0 (ground arith))
        λ value. h (j + val_len) _ (omega arith))
]

field-Total :
    (xs : List ℕ) (header j : ℕ) (next : ℕ → SensorData → Run SensorData) (d : SensorData)
    → j ≤ length xs
    → ((k : ℕ) (d' : SensorData) → j ≤ k → Total (next k d'))
    → Total (field xs header j next d)
unfolding field
field-Total xs header j next d inside h =
    elim (Bool-cases (low_bits header 6 == k_tlv_type_commissioning)) [
      | inl block ↦ rw block (h _ d (ground arith))
      | inr other ↦
          rw other
            (elim (Bool-cases (
              header >> k_tlv_size_shift == k_tlv_size_var
              || low_bits header 6 == k_tlv_type_optional)) [
                | inl var ↦ rw var (skip_variable-Total xs j _ d (λ k p. h k d (omega arith)))
                | inr fixed ↦ rw fixed (take_value-Total xs j _ _ next d h)
              ])
    ]

-- With fuel for the bytes that are left, the loop ends with a value.
decode-Total :
    (fuel : ℕ) (xs : List ℕ) (j : ℕ) (d : SensorData)
    → length xs - j < fuel
    → Total (decode fuel xs j d)
unfolding decode
decode-Total zero xs j d h = absurd (omega arith)
decode-Total (suc fuel) xs j d h = elim (Bool-cases (ltb j (length xs))) [
  | inr over ↦ rw over (d, refl)
  | inl inside ↦ rw inside (
      bind-Total (read xs j) _ (get_or xs j 0, read-done xs j 0 (ground arith))
        λ header.
          field-Total xs header (j + 1) (decode fuel xs) d (ground arith)
            (λ k d' p. decode-Total fuel xs k d' (ground arith)))
]

-- The values of any sequence of bytes decode: the loop ends, and reads no byte outside.
pub decode_sensor_data-Total : (xs : List ℕ) → Total (decode_sensor_data xs)
unfolding decode_sensor_data
decode_sensor_data-Total xs = decode-Total (suc (length xs)) xs 0 empty_sensor_data (omega arith)
