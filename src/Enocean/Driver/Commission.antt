-- ===== src/Enocean/Driver/Commission.antt =====
-- Commissioning (handle_commissioning in src/enocean/EnoceanDriver.ipp): the two layouts of a
-- commissioning telegram, and what a driver that knows a device is.
use enocean_core.Base.{
  ℕ, suc, ◌+◌, ◌≤◌, ◌<◌, ◌≡◌, ◌≢◌, refl, ◌∙◌, sym, ap, arith, ◌⊎◌, inl, inr, Bool, true, false, not,
  ◌&&◌, List, [], ◌∷◌, ◌++◌, length, length-append, take-prefix, take, drop, All,
  get_elem?-set_self, lt-of-get_elem?, set, some, none, Option-cases, Run, done, ◌>>=◌, read,
  copy_over_whole, le→ltb, leb, ◌==◌, ==_iff, if◌then◌else◌,
}
use enocean_core.Base.Int.{ℤ}
use enocean_core.Crypto.{Decrypt}
use enocean_core.Enocean.Types.{DeviceType, EnoceanDevice, Event}
use enocean_core.Enocean.Advert.Structures.{extract_manufacturer_data-encode}
use enocean_core.Enocean.Fields.{read_seq, detect_device_type}
use enocean_core.Enocean.Fields.Laws.{IsByte, le_u32, read_seq-le_u32}
use enocean_core.Enocean.Table.{find_device, allocate_device, count_active}
use enocean_core.Enocean.Table.Laws.{
  allocate_device-some, allocate_device-full, count_active-set, one,
}
use enocean_core.Enocean.Table.Invariant.{
  IsTable, IsTable-register, find_device-IsFresh, find_device-at,
}
use enocean_core.Enocean.Telegram.Accept.{numbered}
use enocean_core.Enocean.Driver.Steps.{commissioned_device, with_device, key_offset}
use enocean_core.Enocean.Driver.Receive.{Carries}
use enocean_core.Enocean.Driver.{
  EnoceanDriver, is_stm_format, is_sensor, store_device, register, handle_commissioning,
  process_unknown, process_payload, process_initialised, process_advertisement, store_key,
  is_stm_format,
}

-- An initialised driver that accepts new devices, has room for one, and does not know the address.
pub record Accepts (d : EnoceanDriver) (addr : List ℕ) : Type 0 where
  pub ready : d.initialised ≡ true
  pub enabled : d.commissioning_enabled ≡ true
  pub table : IsTable d.devices
  pub room : count_active d.devices < 8
  pub addr_len : length addr ≡ 6
  pub unknown : find_device addr d.devices ≡ none

-- What the run leaves: the device in a slot where a lookup of its address finds it, one more device
-- in use, all else as before, and one call of the callback if it is set.
pub record Commissions (d : EnoceanDriver) (addr : List ℕ) (new : EnoceanDevice)
    (r : Run (EnoceanDriver × List Event)) : Type 0 where
  pub slot : ℕ
  pub ran :
      r
      ≡ done (
        with_device d slot new,
        if d.callbacks.commissioned then Event.commissioned new ∷ [] else [],
      )
  pub found : find_device addr (set d.devices slot new) ≡ some (slot, new)
  pub count : count_active (set d.devices slot new) ≡ suc (count_active d.devices)

-- A table that is not full has a free slot.
free_slot :
    (ds : List EnoceanDevice)
    → length ds ≡ 8
    → count_active ds < 8
    → (i : ℕ) × (free : EnoceanDevice) × (allocate_device ds ≡ some (i, free))
free_slot ds size room = elim (Option-cases (allocate_device ds)) [
  | inl full ↦ absurd (omega (arith, (allocate_device-full ds).0 full))
  | inr ((i, free), slot) ↦ (i, free, slot)
]

module _ (crypto : Decrypt) (d : EnoceanDriver) (addr : List ℕ) (rssi : ℤ) (adv_data p : List ℕ)
    (seq marker : ℕ) (type : DeviceType) (key : List ℕ) (a : Accepts d addr)
    (c : Carries adv_data p) (long : 22 ≤ length p) (bound : seq < 4294967296)
    (rs : read_seq p ≡ done seq) (dt : detect_device_type addr ≡ done type)
    (rm : read p 4 ≡ done marker) (fine : is_sensor type && not (is_stm_format p marker) ≡ false)
    (enough : key_offset p marker + 16 ≤ length p)
    (cut : take 16 (drop (key_offset p marker) p) ≡ key) (key_len : length key ≡ 16) where
  abbrev new : EnoceanDevice
  new = commissioned_device addr 1 rssi seq type key

  store_device-slot :
      (i : ℕ) (free : EnoceanDevice)
      → allocate_device d.devices ≡ some (i, free)
      → store_device d addr 1 rssi seq type key
        ≡ done (
          with_device d i new,
          true,
          if d.callbacks.commissioned then Event.commissioned new ∷ [] else [],
        )
  unfolding store_device register
  store_device-slot i free slot =
      let at = (allocate_device-some d.devices {i = i} {dev = free} slot).0 in
      rw (
        store_device,
        a.unknown,
        slot,
        register,
        copy_over_whole addr free.ble_addr.addr
            (a.addr_len ∙ sym (a.table.fits i free at).addr_len),
      )

  handle_commissioning-slot :
      (i : ℕ) (free : EnoceanDevice)
      → allocate_device d.devices ≡ some (i, free)
      → handle_commissioning d addr 1 rssi p
        ≡ done (
          with_device d i new,
          true,
          if d.callbacks.commissioned then Event.commissioned new ∷ [] else [],
        )
  unfolding handle_commissioning
  handle_commissioning-slot i free slot = rw (
    handle_commissioning,
    le→ltb (length p) 22 long,
    rs,
    dt,
    rm,
    store_key,
    fine,
    le→ltb (length p) (key_offset p marker + 16) enough,
    cut,
    store_device-slot i free slot,
  )

  process_unknown-slot :
      (i : ℕ) (free : EnoceanDevice)
      → allocate_device d.devices ≡ some (i, free)
      → process_unknown d addr 1 rssi p
        ≡ done (
          with_device d i new,
          if d.callbacks.commissioned then Event.commissioned new ∷ [] else [],
        )
  unfolding process_unknown
  process_unknown-slot i free slot =
      let wide : leb 22 (length p) ≡ true = ground arith in
      let body = handle_commissioning d addr 1 rssi p >>= λ r. done (r.0, r.2) in
      ap (λ b. if b && d.commissioning_enabled then body else done (d, [])) wide
      ∙ ap (λ b. if b then body else done (d, [])) a.enabled
      ∙ ap (λ m. m >>= λ r. done (r.0, r.2)) (handle_commissioning-slot i free slot)

  process_advertisement-slot :
      (i : ℕ) (free : EnoceanDevice)
      → allocate_device d.devices ≡ some (i, free)
      → process_advertisement crypto d addr 1 3 rssi adv_data
        ≡ done (
          with_device d i new,
          if d.callbacks.commissioned then Event.commissioned new ∷ [] else [],
        )
  unfolding process_advertisement process_initialised process_payload
  process_advertisement-slot i free slot =
      let body = process_initialised crypto d addr 1 3 rssi adv_data in
      let six = (==_iff (length addr) 6).1 a.addr_len in
      let extracted =
        extract_manufacturer_data-encode c.structures c.rest c.well_formed c.ends
        ∙ ap done c.telegram in
      let some_bytes : (length p == 0) ≡ false = ground arith in
      ap (λ b. if not b then done (d, []) else body) a.ready
      ∙ rw (
        six,
        c.bytes,
        extracted,
        some_bytes,
        le→ltb (length p) 9 (omega arith),
        a.unknown,
        process_unknown-slot i free slot,
      )

  commissions : Commissions d addr new (process_advertisement crypto d addr 1 3 rssi adv_data)
  commissions =
      let (i, free, slot) = free_slot d.devices a.table.size a.room in
      let at = allocate_device-some d.devices {i = i} {dev = free} slot in
      let t =
        IsTable-register d.devices i new a.table
          (find_device-IsFresh addr d.devices a.table a.addr_len a.unknown)
          (record { key_len = key_len; addr_len = a.addr_len; seq_num_lt = omega arith }) in
      record {
        slot = i;
        ran = process_advertisement-slot i free slot;
        found =
            find_device-at addr (set d.devices i new) i new t
              (get_elem?-set_self d.devices i new (lt-of-get_elem? d.devices i at.0)) refl refl;
        count = omega (arith, count_active-set d.devices i free new at.0, ap (λ b. one b) at.1);
      }

-- The four bytes of a number, each of them a byte.
abbrev pub AreBytes : ℕ → ℕ → ℕ → ℕ → Type 0
AreBytes b0 b1 b2 b3 = All IsByte (b0 ∷ b1 ∷ b2 ∷ b3 ∷ [])

-- The commissioning telegram of a switch, from an address that does not look like a sensor's, with
-- the key in bytes 4 to 19 and two or more bytes behind it: the driver comes to know the device, with
-- that key and the number of the telegram, if it accepts the address as new. If the telegram has 27 bytes, its key does not start with
-- the marker 0x3E of the other layout.
pub process_advertisement-Commissions :
    (crypto : Decrypt) (d : EnoceanDriver) (addr : List ℕ) (rssi : ℤ) (adv_data : List ℕ)
    (b0 b1 b2 b3 : ℕ) (type : DeviceType) (k0 : ℕ) (ks info : List ℕ)
    → Accepts d addr
    → AreBytes b0 b1 b2 b3
    → detect_device_type addr ≡ done type
    → type ≢ DeviceType.sensor
    → length ks ≡ 15
    → 2 ≤ length info
    → (length info ≢ 7) ⊎ (k0 ≢ 0x3E)
    → Carries adv_data (numbered b0 b1 b2 b3 (k0 ∷ (ks ++ info)))
    → Commissions d addr
        (commissioned_device addr 1 rssi (le_u32 b0 b1 b2 b3) type (k0 ∷ ks))
        (process_advertisement crypto d addr 1 3 rssi adv_data)
process_advertisement-Commissions crypto d addr rssi adv_data b0 b1 b2 b3 type k0 ks info a b dt
      other hk hi form c =
    let p = numbered b0 b1 b2 b3 (k0 ∷ (ks ++ info)) in
    let len : length p ≡ 20 + length info = omega (arith, length-append ks info) in
    let plain = not_stm (length info) len form in
    let offset : key_offset p k0 ≡ 4 = ap (λ t. if t then 5 else 4) plain in
    commissions crypto d addr rssi adv_data p (le_u32 b0 b1 b2 b3) k0 type (k0 ∷ ks) a c
      (omega arith) (omega arith)
      (read_seq-le_u32 b0 b1 b2 b3 (k0 ∷ (ks ++ info)) b.0 b.1.0 b.1.1.0) dt refl
      (accepted type (is_stm_format p k0) other) (omega arith)
      (rw offset (ap (◌∷◌ k0) (take-prefix ks info 15 (sym hk)))) (omega arith)
  where
    not_stm :
        {len : ℕ} (n : ℕ) → len ≡ 20 + n → (n ≢ 7) ⊎ (k0 ≢ 0x3E) → len == 27 && k0 == 0x3E ≡ false
    not_stm n e h = ground arith

    accepted :
        (type : DeviceType) (stm : Bool)
        → type ≢ DeviceType.sensor
        → is_sensor type && not stm ≡ false
    accepted DeviceType.switch stm h = refl
    accepted DeviceType.sensor stm h = absurd (h refl)
    accepted DeviceType.unknown stm h = refl

-- The commissioning telegram of a sensor module, which has 27 bytes, the marker 0x3E in byte 4 and
-- the key in bytes 5 to 20: the driver comes to know the device, with that key and the number of the
-- telegram, if it accepts the address as new, whatever the address says about its type.
pub process_advertisement-Commissions_sensor :
    (crypto : Decrypt) (d : EnoceanDriver) (addr : List ℕ) (rssi : ℤ) (adv_data : List ℕ)
    (b0 b1 b2 b3 : ℕ) (type : DeviceType) (key info : List ℕ)
    → Accepts d addr
    → AreBytes b0 b1 b2 b3
    → detect_device_type addr ≡ done type
    → length key ≡ 16
    → length info ≡ 6
    → Carries adv_data (numbered b0 b1 b2 b3 (0x3E ∷ (key ++ info)))
    → Commissions d addr
        (commissioned_device addr 1 rssi (le_u32 b0 b1 b2 b3) type key)
        (process_advertisement crypto d addr 1 3 rssi adv_data)
process_advertisement-Commissions_sensor crypto d addr rssi adv_data b0 b1 b2 b3 type key info a b
      dt hk hi c =
    let p = numbered b0 b1 b2 b3 (0x3E ∷ (key ++ info)) in
    let len : length p ≡ 27 = omega (arith, length-append key info) in
    let stm : is_stm_format p 0x3E ≡ true = rw len refl in
    let offset : key_offset p 0x3E ≡ 5 = ap (λ t. if t then 5 else 4) stm in
    commissions crypto d addr rssi adv_data p (le_u32 b0 b1 b2 b3) 0x3E type key a c (omega arith)
      (omega arith) (read_seq-le_u32 b0 b1 b2 b3 (0x3E ∷ (key ++ info)) b.0 b.1.0 b.1.1.0) dt refl
      (ground (arith, stm)) (omega arith) (rw offset (take-prefix key info 16 (sym hk))) hk
