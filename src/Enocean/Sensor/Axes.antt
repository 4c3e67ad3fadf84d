-- ===== src/Enocean/Sensor/Axes.antt =====
-- The acceleration in what the loop of handle_sensor (src/enocean/EnoceanDriver.ipp) decodes.
use enocean_core.Base.{
  ℕ, zero, suc, ◌+◌, ◌-◌, ◌≡◌, refl, arith, Bool, true, false, not, ◌||◌, ◌&&◌, List, length,
  Option, none, some, Run, done, out_of_bounds, out_of_fuel, ◌>>=◌, read, ltb, leb, ◌==◌, if_cases,
}
use enocean_core.Base.Bits.{◌>>◌, low_bits}
use enocean_core.Enocean.Types.{SensorData, empty_sensor_data}
use enocean_core.Enocean.Sensor.{
  store, store_acceleration, assemble, skip_variable, take_value, field, decode, decode_sensor_data,
  k_tlv_size_shift, k_tlv_size_var, k_tlv_type_optional, k_tlv_type_commissioning,
}

abbrev pub is_some : {A : Type 0} → Option A → Bool
is_some none = false
is_some (some a) = true

-- Where there is a status, there are the values of the three axes.
abbrev pub HasAxes : SensorData → Type 0
HasAxes d =
    (not (is_some d.accel_status)
      || (is_some d.accel_x_cg && is_some d.accel_y_cg && is_some d.accel_z_cg))
    ≡ true

-- It holds of the value, if there is one.
abbrev IfDone : Run SensorData → Type 0
IfDone (done d) = HasAxes d
IfDone out_of_bounds = Unit {0}
IfDone out_of_fuel = Unit {0}

bind-IfDone :
    {A : Type 0} (m : Run A) (f : A → Run SensorData) → ((a : A) → IfDone (f a)) → IfDone (m >>= f)
bind-IfDone (done a) f h = h a
bind-IfDone out_of_bounds f h = tt
bind-IfDone out_of_fuel f h = tt

store-HasAxes :
    (type_id val_len value : ℕ) (d : SensorData)
    → HasAxes d
    → HasAxes (store type_id val_len value d)
unfolding store store_acceleration
store-HasAxes type_id val_len value d h = ground (arith, h)

skip_variable-IfDone :
    (xs : List ℕ) (j : ℕ) (next : ℕ → Run SensorData) (d : SensorData)
    → HasAxes d
    → ((k : ℕ) → IfDone (next k))
    → IfDone (skip_variable xs j next d)
unfolding skip_variable
skip_variable-IfDone xs j next d h k =
    if_cases IfDone (leb (length xs) j) (λ _. h)
      (λ _.
        bind-IfDone (read xs j) _ (λ vlen.
          if_cases IfDone (ltb (length xs - (j + 1)) vlen) (λ _. h) (λ _. k (j + 1 + vlen))))

take_value-IfDone :
    (xs : List ℕ) (j type_id val_len : ℕ) (next : ℕ → SensorData → Run SensorData) (d : SensorData)
    → HasAxes d
    → ((k : ℕ) (d' : SensorData) → HasAxes d' → IfDone (next k d'))
    → IfDone (take_value xs j type_id val_len next d)
unfolding take_value
take_value-IfDone xs j type_id val_len next d h k =
    if_cases IfDone (ltb (length xs) (j + val_len)) (λ _. h)
      (λ _.
        bind-IfDone (assemble val_len xs j 0 0) _
          (λ value. k (j + val_len) _ (store-HasAxes type_id val_len value d h)))

field-IfDone :
    (xs : List ℕ) (header j : ℕ) (next : ℕ → SensorData → Run SensorData) (d : SensorData)
    → HasAxes d
    → ((k : ℕ) (d' : SensorData) → HasAxes d' → IfDone (next k d'))
    → IfDone (field xs header j next d)
unfolding field
field-IfDone xs header j next d h k =
    if_cases IfDone (low_bits header 6 == k_tlv_type_commissioning) (λ _. k _ d h)
      (λ _.
        if_cases IfDone
          (header >> k_tlv_size_shift == k_tlv_size_var || low_bits header 6 == k_tlv_type_optional)
          (λ _. skip_variable-IfDone xs j _ d h (λ i. k i d h))
          (λ _. take_value-IfDone xs j _ _ next d h k))

decode-IfDone :
    (fuel : ℕ) (xs : List ℕ) (j : ℕ) (d : SensorData) → HasAxes d → IfDone (decode fuel xs j d)
unfolding decode
decode-IfDone zero xs j d h = tt
decode-IfDone (suc fuel) xs j d h =
    if_cases IfDone (not (ltb j (length xs))) (λ _. h)
      (λ _. bind-IfDone (read xs j) _ (λ header.
        field-IfDone xs header (j + 1) (decode fuel xs) d h
          (λ k d' h'. decode-IfDone fuel xs k d' h')))

done-HasAxes : (r : Run SensorData) {d : SensorData} → r ≡ done d → IfDone r → HasAxes d
done-HasAxes (done d) e h = ground (arith, e, h)
done-HasAxes out_of_bounds e h = cc
done-HasAxes out_of_fuel e h = cc

pub decode_sensor_data-HasAxes :
    (xs : List ℕ) {d : SensorData} → decode_sensor_data xs ≡ done d → HasAxes d
unfolding decode_sensor_data
decode_sensor_data-HasAxes xs e =
    done-HasAxes _ e (decode-IfDone (suc (length xs)) xs 0 empty_sensor_data refl)
