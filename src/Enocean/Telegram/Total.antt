-- ===== src/Enocean/Telegram/Total.antt =====
-- Bounds and termination of handle_switch and handle_sensor (src/enocean/EnoceanDriver.ipp).
use enocean_core.Base.{
  ℕ, ◌-◌, ◌≤◌, arith, inl, inr, true, false, List, length, read, subspan, Total, done-Total,
  bind-Total, read-Total, subspan-Total, ltb, ◌==◌, Bool-cases, Bool, bit_and,
}
use enocean_core.Crypto.{Decrypt}
use enocean_core.Enocean.Types.{EnoceanDevice, EnoceanCallbacks}
use enocean_core.Enocean.Fields.{read_seq, build_nonce, detect_device_type}
use enocean_core.Enocean.Fields.Laws.{IsAddr, build_nonce-append}
use enocean_core.Enocean.Sensor.Total.{decode_sensor_data-Total}
use enocean_core.Enocean.Telegram.{
  authenticate, sensor_values, conclude_sensor, verify_switch, switch_telegram, sensor_telegram,
  handle_switch, handle_sensor, k_data_payload_min, k_switch_payload_max, k_status_reserved_mask,
}

pub read_seq-Total : (p : List ℕ) → 4 ≤ length p → Total (read_seq p)
unfolding read_seq
read_seq-Total p h = bind-Total (read p 0) _ (read-Total p 0 (omega arith)) λ b0.
    bind-Total (read p 1) _ (read-Total p 1 (omega arith)) λ b1.
      bind-Total (read p 2) _ (read-Total p 2 (omega arith))
        λ b2. bind-Total (read p 3) _ (read-Total p 3 (omega arith)) λ b3. done-Total _

-- An address of any length has a type.
pub detect_device_type-Total : (addr : List ℕ) → Total (detect_device_type addr)
unfolding detect_device_type
detect_device_type-Total addr = elim (Bool-cases (ltb (length addr) 6)) [
  | inl short ↦ rw short (done-Total _)
  | inr long ↦ rw long (
      bind-Total (read addr 5) _ (read-Total addr 5 (ground arith))
        λ a5. bind-Total (read addr 4) _ (read-Total addr 4 (ground arith)) λ a4. done-Total _)
]

authenticate-Total :
    (crypto : Decrypt) (dev : EnoceanDevice) (p : List ℕ) (seq : ℕ)
    → IsAddr dev.ble_addr.addr
    → 4 ≤ length p
    → Total (authenticate crypto dev p seq)
unfolding authenticate
authenticate-Total crypto dev p seq ha h =
    bind-Total (subspan p (length p - 4) 4) _ (subspan-Total p (length p - 4) 4 (omega arith))
      λ tag.
        bind-Total (subspan p 0 (length p - 4)) _ (subspan-Total p 0 (length p - 4) (omega arith))
          λ payload.
            bind-Total (build_nonce dev.ble_addr.addr seq) _
              (_, build_nonce-append dev.ble_addr.addr seq ha) λ nonce. done-Total _

sensor_values-Total : (p : List ℕ) → 9 ≤ length p → Total (sensor_values p)
unfolding sensor_values
sensor_values-Total p h = elim (Bool-cases (ltb 4 (length p))) [
  | inl more ↦ rw more (
      bind-Total (subspan p 4 (length p - 4 - 4)) _
        (subspan-Total p 4 (length p - 4 - 4) (omega arith)) decode_sensor_data-Total)
  | inr none ↦ rw none (done-Total _)
]

module _ (crypto : Decrypt) (callbacks : EnoceanCallbacks) (dev : EnoceanDevice) (p : List ℕ)
    (ha : IsAddr dev.ble_addr.addr) where
  conclude_sensor-Total :
      (seq : ℕ) (ok : Bool) → 9 ≤ length p → Total (conclude_sensor callbacks dev p seq ok)
  conclude_sensor-Total seq false h = done-Total _
  conclude_sensor-Total seq true h =
      bind-Total (sensor_values p) _ (sensor_values-Total p h) λ values. done-Total _

  switch_telegram-Total :
      (seq : ℕ) → 9 ≤ length p → Total (switch_telegram crypto callbacks dev p seq)
  unfolding switch_telegram
  switch_telegram-Total seq h = elim (Bool-cases (ltb dev.seq_num seq)) [
    | inr old ↦ rw old (done-Total _)
    | inl new ↦ rw new (elim (Bool-cases (ltb k_switch_payload_max (length p))) [
      | inl long ↦ rw long (done-Total _)
      | inr fits ↦ rw fits (
          bind-Total (read p 4) _ (read-Total p 4 (omega arith)) λ state.
            elim (Bool-cases (bit_and state k_status_reserved_mask == 0)) [
              | inr set ↦ rw (verify_switch, set) (done-Total _)
              | inl clear ↦
                  rw (verify_switch, clear)
                    (bind-Total (authenticate crypto dev p seq) _
                      (authenticate-Total crypto dev p seq ha (omega arith)) λ ok. done-Total _)
            ])
    ])
  ]

  sensor_telegram-Total :
      (seq : ℕ) → 9 ≤ length p → Total (sensor_telegram crypto callbacks dev p seq)
  unfolding sensor_telegram
  sensor_telegram-Total seq h = elim (Bool-cases (ltb dev.seq_num seq)) [
    | inr old ↦ rw old (done-Total _)
    | inl new ↦ rw new (
        bind-Total (authenticate crypto dev p seq) _
          (authenticate-Total crypto dev p seq ha (omega arith))
          λ ok. conclude_sensor-Total seq ok h)
  ]

  pub handle_switch-Total : Total (handle_switch crypto callbacks dev p)
  unfolding handle_switch
  handle_switch-Total = elim (Bool-cases (ltb (length p) k_data_payload_min)) [
    | inl short ↦ rw short (done-Total _)
    | inr long ↦ rw long (
        bind-Total (read_seq p) _ (read_seq-Total p (ground arith))
          λ seq. switch_telegram-Total seq (ground arith))
  ]

  pub handle_sensor-Total : Total (handle_sensor crypto callbacks dev p)
  unfolding handle_sensor
  handle_sensor-Total = elim (Bool-cases (ltb (length p) k_data_payload_min)) [
    | inl short ↦ rw short (done-Total _)
    | inr long ↦ rw long (
        bind-Total (read_seq p) _ (read_seq-Total p (ground arith))
          λ seq. sensor_telegram-Total seq (ground arith))
  ]
