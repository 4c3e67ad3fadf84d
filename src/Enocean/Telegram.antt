-- ===== src/Enocean/Telegram.antt =====
-- src/enocean/EnoceanDriver.ipp: handle_switch and handle_sensor, on a device of the table. Each
-- returns the device as it leaves it, the source's result, and the callbacks it called. The crypto
-- backend is a parameter. The log lines are not modelled.
pub mod Outcome
pub mod Accept
pub mod Total
use enocean_core.Base.{
  ℕ, ◌+◌, ◌-◌, Bool, true, false, not, ◌&&◌, List, [], ◌∷◌, length, take, drop, Run, done, ◌>>=◌,
  read, subspan, ltb, ◌==◌, if◌then◌else◌, bit_and,
}
use enocean_core.Base.Bits.{◌>>◌, low_bits}
use enocean_core.Crypto.{Decrypt, aes_ccm_decrypt}
use enocean_core.Enocean.Types.{
  k_tag_len, ButtonAction, EnoceanDevice, EnoceanCallbacks, SensorData, empty_sensor_data, Event,
}
use enocean_core.Enocean.Fields.{read_seq, build_nonce, check_sequence}
use enocean_core.Enocean.Sensor.{decode_sensor_data}

abbrev pub k_data_payload_min : ℕ
k_data_payload_min = 9

abbrev pub k_switch_payload_max : ℕ
k_switch_payload_max = 13

abbrev pub k_switch_state_offset : ℕ
k_switch_state_offset = 4

abbrev pub k_sensor_data_offset : ℕ
k_sensor_data_offset = 4

abbrev pub k_status_reserved_mask : ℕ
k_status_reserved_mask = 0xE0

abbrev pub Handled : Type 0
Handled = EnoceanDevice × Bool × List Event

abbrev pub rejected : EnoceanDevice → Handled
rejected device = (device, false, [])

-- The call of aes_ccm_decrypt, with the spans and the nonce that the handlers prepare for it.
unfoldable pub authenticate : Decrypt → EnoceanDevice → List ℕ → ℕ → Run Bool
unfolding aes_ccm_decrypt
authenticate crypto device mfr_payload seq = do
  tag ← subspan mfr_payload (length mfr_payload - k_tag_len) k_tag_len
  payload ← subspan mfr_payload 0 (length mfr_payload - k_tag_len)
  nonce ← build_nonce device.ble_addr.addr seq
  done (aes_ccm_decrypt crypto device.key nonce payload [] tag 0)

-- The optional user data between the state byte and the tag.
abbrev pub optional_data : List ℕ → List ℕ
optional_data mfr_payload =
    take (length mfr_payload - k_tag_len - (k_switch_state_offset + 1))
      (drop (k_switch_state_offset + 1) mfr_payload)

-- Lengths of optional data that the switch protocol defines.
abbrev pub is_optional_len : ℕ → Bool
is_optional_len n = not (not (n == 1) && not (n == 2) && not (n == 4))

button_events : EnoceanCallbacks → EnoceanDevice → ℕ → List ℕ → List Event
button_events callbacks device state opt =
    if callbacks.button
    then Event.button device
        (if not (low_bits state 1 == 0) then ButtonAction.press else ButtonAction.release)
        (low_bits (state >> 1) 4) opt
      ∷ []
    else []

-- The end of handle_switch, behind `device.seq_num = seq`.
unfoldable pub dispatch_switch : EnoceanCallbacks → EnoceanDevice → List ℕ → ℕ → Handled
unfolding button_events
dispatch_switch callbacks device mfr_payload state =
    let opt_len = length mfr_payload - k_tag_len - (k_switch_state_offset + 1) in
    if ltb (k_switch_state_offset + 1) (length mfr_payload - k_tag_len)
    then if is_optional_len opt_len
      then (device, true, button_events callbacks device state (optional_data mfr_payload))
      else rejected device
    else (device, true, button_events callbacks device state [])

-- The values of a sensor telegram.
unfoldable pub sensor_values : List ℕ → Run SensorData
sensor_values mfr_payload =
    if ltb k_sensor_data_offset (length mfr_payload)
    then (do
      sensor_bytes ←
          subspan mfr_payload k_sensor_data_offset
            (length mfr_payload - k_tag_len - k_sensor_data_offset)
      decode_sensor_data sensor_bytes)
    else done empty_sensor_data

-- The end of handle_sensor.
abbrev pub dispatch_sensor : EnoceanCallbacks → EnoceanDevice → SensorData → Handled
dispatch_sensor callbacks device values =
    (device, true, if callbacks.sensor then Event.sensor device values [] ∷ [] else [])

-- `if (!auth_ok) return false;` and what follows; here and below `device` is still as it was.
abbrev pub conclude_switch : EnoceanCallbacks → EnoceanDevice → List ℕ → ℕ → ℕ → Bool → Handled
conclude_switch callbacks device mfr_payload seq state false = rejected device
conclude_switch callbacks device mfr_payload seq state true =
    dispatch_switch callbacks (record device { seq_num = seq }) mfr_payload state

abbrev pub conclude_sensor : EnoceanCallbacks → EnoceanDevice → List ℕ → ℕ → Bool → Run Handled
conclude_sensor callbacks device mfr_payload seq false = done (rejected device)
conclude_sensor callbacks device mfr_payload seq true = do
  values ← sensor_values mfr_payload
  done (dispatch_sensor callbacks (record device { seq_num = seq }) values)

-- handle_switch, from the check of the reserved bits on.
abbrev pub verify_switch : Decrypt → EnoceanCallbacks → EnoceanDevice → List ℕ → ℕ → ℕ → Run Handled
verify_switch crypto callbacks device mfr_payload seq state =
    if not (bit_and state k_status_reserved_mask == 0) then done (rejected device) else do
      auth_ok ← authenticate crypto device mfr_payload seq
      done (conclude_switch callbacks device mfr_payload seq state auth_ok)

-- handle_switch, from the check of the sequence number on.
unfoldable pub switch_telegram :
    Decrypt → EnoceanCallbacks → EnoceanDevice → List ℕ → ℕ → Run Handled
switch_telegram crypto callbacks device mfr_payload seq =
    if not (check_sequence device.seq_num seq)
    then done (rejected device)
    else if ltb k_switch_payload_max (length mfr_payload)
    then done (rejected device)
    else do
      state ← read mfr_payload k_switch_state_offset
      verify_switch crypto callbacks device mfr_payload seq state

-- handle_sensor, from the check of the sequence number on.
unfoldable pub sensor_telegram :
    Decrypt → EnoceanCallbacks → EnoceanDevice → List ℕ → ℕ → Run Handled
sensor_telegram crypto callbacks device mfr_payload seq =
    if not (check_sequence device.seq_num seq) then done (rejected device) else do
      auth_ok ← authenticate crypto device mfr_payload seq
      conclude_sensor callbacks device mfr_payload seq auth_ok

unfoldable pub handle_switch : Decrypt → EnoceanCallbacks → EnoceanDevice → List ℕ → Run Handled
handle_switch crypto callbacks device mfr_payload =
    if ltb (length mfr_payload) k_data_payload_min
    then done (rejected device)
    else do seq ← read_seq mfr_payload; switch_telegram crypto callbacks device mfr_payload seq

unfoldable pub handle_sensor : Decrypt → EnoceanCallbacks → EnoceanDevice → List ℕ → Run Handled
handle_sensor crypto callbacks device mfr_payload =
    if ltb (length mfr_payload) k_data_payload_min
    then done (rejected device)
    else do seq ← read_seq mfr_payload; sensor_telegram crypto callbacks device mfr_payload seq
