-- ===== src/Enocean/Driver/Safe.antt =====
-- Bounds and termination of process_advertisement (src/enocean/EnoceanDriver.ipp).
use enocean_core.Base.{
  ℕ, ◌+◌, ◌≡◌, ◌∙◌, sym, arith, inl, inr, true, false, not, ◌&&◌, ◌||◌, Bool, List, [], length,
  some, Option-cases, Run, done, read, copy_over, copy_over_whole, Total, done-Total, bind-Total,
  read-Total, ltb, leb, ◌==◌, ==_iff, Bool-cases, if◌then◌else◌,
}
use enocean_core.Base.Int.{ℤ}
use enocean_core.Crypto.{Decrypt}
use enocean_core.Enocean.Types.{EnoceanDevice, DeviceType, Event}
use enocean_core.Enocean.Advert.{extract_manufacturer_data}
use enocean_core.Enocean.Fields.{read_seq, detect_device_type}
use enocean_core.Enocean.Table.{find_device, allocate_device}
use enocean_core.Enocean.Table.Laws.{find_device-some, allocate_device-some}
use enocean_core.Enocean.Table.Invariant.{IsTable}
use enocean_core.Enocean.Telegram.Total.{
  read_seq-Total, detect_device_type-Total, handle_switch-Total, handle_sensor-Total,
}
use enocean_core.Enocean.Driver.Steps.{key_offset}
use enocean_core.Enocean.Driver.{
  EnoceanDriver, is_stm_format, is_sensor, register, store_device, store_key, handle_commissioning,
  handle_data, process_known, process_unknown, process_payload, process_initialised,
  process_advertisement,
}

module _ (crypto : Decrypt) (d : EnoceanDriver) (addr : List ℕ) (addr_type : ℕ) (rssi : ℤ)
    (t : IsTable d.devices) (len : length addr ≡ 6) where
  store_device-Total :
      (seq : ℕ) (type : DeviceType) (key : List ℕ)
      → Total (store_device d addr addr_type rssi seq type key)
  unfolding store_device
  store_device-Total seq type key = elim (Option-cases (find_device addr d.devices)) [
    | inr ((i, dev), known) ↦ rw (store_device, known) (done-Total _)
    | inl unknown ↦
        rw (store_device, unknown)
          (elim (Option-cases (allocate_device d.devices)) [
            | inl full ↦ rw full (done-Total _)
            | inr ((i, free), slot) ↦
                let at = (allocate_device-some d.devices {i = i} {dev = free} slot).0 in
                let fits = (t.fits i free at).addr_len in
                unfold register in
                rw slot (
                  bind-Total (copy_over addr free.ble_addr.addr) _
                    (addr, copy_over_whole addr free.ble_addr.addr (len ∙ sym fits))
                    λ stored. done-Total _)
          ])
  ]

  store_key-Total :
      (p : List ℕ) (seq : ℕ) (type : DeviceType) (marker : ℕ)
      → Total (store_key d addr addr_type rssi p seq type marker)
  store_key-Total p seq type marker =
      elim (Bool-cases (is_sensor type && not (is_stm_format p marker))) [
        | inl refused ↦ rw (store_key, refused) (done-Total _)
        | inr fine ↦
            rw (store_key, fine)
              (elim (Bool-cases (ltb (length p) (key_offset p marker + 16))) [
                | inl short ↦ rw short (done-Total _)
                | inr enough ↦ rw enough (
                    bind-Total (done _) (λ key. store_device d addr addr_type rssi seq type key)
                      (done-Total _) (store_device-Total seq type))
              ])
      ]

  handle_commissioning-Total : (p : List ℕ) → Total (handle_commissioning d addr addr_type rssi p)
  unfolding handle_commissioning
  handle_commissioning-Total p = elim (Bool-cases (ltb (length p) 22)) [
    | inl short ↦ rw short (done-Total _)
    | inr long ↦ rw long (
        bind-Total (read_seq p) _ (read_seq-Total p (ground arith)) λ seq.
          bind-Total (detect_device_type addr) _ (detect_device_type-Total addr) λ type.
            bind-Total (read p 4) _ (read-Total p 4 (ground arith))
              λ marker. store_key-Total p seq type marker)
  ]

  process_known-Total :
      (i : ℕ) (dev : EnoceanDevice) (p : List ℕ)
      → find_device addr d.devices ≡ some (i, dev)
      → Total (process_known crypto d (i, dev) rssi p)
  unfolding process_known
  process_known-Total i dev p found =
      let at = find_device-some addr d.devices {i = i} {dev = dev} found in
      bind-Total (handle_data crypto d.callbacks dev.type (record dev { rssi = rssi }) p) _
        (by_type dev.type (t.fits i dev at.0).addr_len) λ h. done-Total _
    where
      by_type :
          (type : DeviceType)
          → length dev.ble_addr.addr ≡ 6
          → Total (handle_data crypto d.callbacks type (record dev { rssi = rssi }) p)
      by_type DeviceType.switch h =
          handle_switch-Total crypto d.callbacks (record dev { rssi = rssi }) p h
      by_type DeviceType.sensor h =
          handle_sensor-Total crypto d.callbacks (record dev { rssi = rssi }) p h
      by_type DeviceType.unknown h =
          handle_sensor-Total crypto d.callbacks (record dev { rssi = rssi }) p h

  process_unknown-Total : (p : List ℕ) → Total (process_unknown d addr addr_type rssi p)
  unfolding process_unknown
  process_unknown-Total p = elim (Bool-cases (leb 22 (length p) && d.commissioning_enabled)) [
    | inr off ↦ rw off (done-Total _)
    | inl on ↦ rw on (
        bind-Total (handle_commissioning d addr addr_type rssi p) _ (handle_commissioning-Total p)
          λ c. done-Total _)
  ]

  process_payload-Total : (p : List ℕ) → Total (process_payload crypto d addr addr_type rssi p)
  unfolding process_payload
  process_payload-Total p = elim (Bool-cases (length p == 0)) [
    | inl nothing ↦ rw nothing (done-Total _)
    | inr some_bytes ↦ rw some_bytes (elim (Bool-cases (ltb (length p) 9)) [
      | inl short ↦ rw short (done-Total _)
      | inr long ↦ rw long (elim (Option-cases (find_device addr d.devices)) [
        | inl unknown ↦ rw unknown (process_unknown-Total p)
        | inr ((i, dev), known) ↦ rw known (process_known-Total i dev p known)
      ])
    ])
  ]

-- If the extraction of the manufacturer data stays inside the advertisement, so does all else: for
-- any address, advertisement type, signal strength, telegram, crypto backend and state with a table
-- that is well formed, the call returns.
pub process_advertisement-Total :
    (crypto : Decrypt) (d : EnoceanDriver) (addr : List ℕ) (addr_type adv_type : ℕ) (rssi : ℤ)
    (adv_data : List ℕ)
    → IsTable d.devices
    → Total (extract_manufacturer_data adv_data)
    → Total (process_advertisement crypto d addr addr_type adv_type rssi adv_data)
unfolding process_advertisement process_initialised
process_advertisement-Total crypto d addr addr_type adv_type rssi adv_data t x =
    guarded d.initialised (elim (Bool-cases (length addr == 6)) [
      | inr other ↦ rw other (done-Total _)
      | inl six ↦ rw six (elim (Bool-cases (not (adv_type == 3) || not (addr_type == 1))) [
        | inl foreign ↦ rw foreign (done-Total _)
        | inr ours ↦ rw ours (
            bind-Total (extract_manufacturer_data adv_data) _ x (
              process_payload-Total crypto d addr addr_type rssi t
                ((==_iff (length addr) 6).0 six)))
      ])
    ])
  where
    guarded :
        (ready : Bool) {body : Run (EnoceanDriver × List Event)}
        → Total body
        → Total (if not ready then done (d, []) else body)
    guarded true h = h
    guarded false h = done-Total _
