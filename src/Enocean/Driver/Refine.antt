-- ===== src/Enocean/Driver/Refine.antt =====
-- process_advertisement (src/enocean/EnoceanDriver.ipp) against the relation of Driver.Steps.
use enocean_core.Base.{
  ℕ, ◌+◌, ◌≤◌, ◌≡◌, refl, ◌∙◌, sym, ap, subst, arith, inl, inr, Bool, true, not, ◌&&◌, ◌||◌, List,
  [], length, take, drop, none, some, Option-cases, Bool-cases, done, done-injective, bind-eq-done,
  ◌>>=◌, read, copy_over_whole, ltb, leb, le→ltb, ◌==◌, ==_iff, if◌then◌else◌,
}
use enocean_core.Base.Int.{ℤ}
use enocean_core.Crypto.{Decrypt}
use enocean_core.Enocean.Types.{EnoceanDevice, DeviceType, Event}
use enocean_core.Enocean.Advert.{extract_manufacturer_data}
use enocean_core.Enocean.Fields.{read_seq, detect_device_type}
use enocean_core.Enocean.Table.{find_device, allocate_device}
use enocean_core.Enocean.Table.Invariant.{IsTable}
use enocean_core.Enocean.Table.Laws.{allocate_device-some}
use enocean_core.Enocean.Telegram.{Handled, authenticate, k_data_payload_min}
use enocean_core.Enocean.Telegram.Outcome.{Outcome, handle_switch-Outcome, handle_sensor-Outcome}
use enocean_core.Enocean.Driver.Steps.{
  Step, ignore, refuse, accept, commission, with_device, key_offset,
}
use enocean_core.Enocean.Driver.{
  EnoceanDriver, Commissioned, is_stm_format, register, store_device, store_key, is_sensor,
  handle_commissioning, handle_data, process_known, process_unknown, process_payload,
  process_initialised, process_advertisement,
}

module _ (crypto : Decrypt) (d : EnoceanDriver) (addr : List ℕ) (rssi : ℤ)
    (adv_data p : List ℕ) where
  abbrev Steps : EnoceanDriver × List Event → Type 0
  Steps r = Step crypto d addr rssi adv_data r.1 r.0

  handle_data-Outcome :
      (type : DeviceType) (dev : EnoceanDevice) {h : Handled}
      → handle_data crypto d.callbacks type dev p ≡ done h
      → Outcome crypto dev p h
  handle_data-Outcome DeviceType.switch dev e = handle_switch-Outcome crypto d.callbacks dev p e
  handle_data-Outcome DeviceType.sensor dev e = handle_sensor-Outcome crypto d.callbacks dev p e
  handle_data-Outcome DeviceType.unknown dev e = handle_sensor-Outcome crypto d.callbacks dev p e

  known-Step :
      (i : ℕ) (dev : EnoceanDevice) (h : Handled)
      → length addr ≡ 6
      → find_device addr d.devices ≡ some (i, dev)
      → extract_manufacturer_data adv_data ≡ done p
      → Outcome crypto (record dev { rssi = rssi }) p h
      → Steps (with_device d i h.0, h.2)
  unfolding authenticate
  known-Step i dev h len found x (inl e) =
      refuse i dev found (ap (λ k. with_device d i k.0) e) (ap (λ k. k.2) e)
  known-Step i dev h len found x (inr a) =
      accept i dev p a.seq len found x a.reads a.newer a.genuine (ap (with_device d i) a.device)
        a.events a.at_most_one

  process_known-Step :
      (i : ℕ) (dev : EnoceanDevice) {r : EnoceanDriver × List Event}
      → length addr ≡ 6
      → find_device addr d.devices ≡ some (i, dev)
      → extract_manufacturer_data adv_data ≡ done p
      → process_known crypto d (i, dev) rssi p ≡ done r
      → Steps r
  unfolding process_known
  process_known-Step i dev len found x e =
      let (h, ran, e') =
        bind-eq-done (handle_data crypto d.callbacks dev.type (record dev { rssi = rssi }) p)
          (λ (handled : Handled). done (with_device d i handled.0, handled.2)) e in
      subst Steps (done-injective e') (
        known-Step i dev h len found x
          (handle_data-Outcome dev.type (record dev { rssi = rssi }) ran))

module _ (crypto : Decrypt) (d : EnoceanDriver) (addr : List ℕ) (rssi : ℤ) (adv_data p : List ℕ)
    (t : IsTable d.devices) (len : length addr ≡ 6) (unknown : find_device addr d.devices ≡ none)
    (extracted : extract_manufacturer_data adv_data ≡ done p) where
  -- What handle_commissioning leaves: the same driver, or one with the new device.
  abbrev Commissions : Commissioned → Type 0
  Commissions r = Step crypto d addr rssi adv_data r.2 r.0

  store_device-Step :
      (seq marker : ℕ) (type : DeviceType) {r : Commissioned}
      → d.commissioning_enabled ≡ true
      → 22 ≤ length p
      → read_seq p ≡ done seq
      → read p 4 ≡ done marker
      → detect_device_type addr ≡ done type
      → store_device d addr 1 rssi seq type (take 16 (drop (key_offset p marker) p)) ≡ done r
      → Commissions r
  unfolding store_device
  store_device-Step seq marker type on long rs rm dt e =
      elim (Option-cases (allocate_device d.devices)) [
        | inl full ↦
            subst Commissions (done-injective (rw (unknown, full, store_device) at e))
              (ignore refl refl)
        | inr ((i, free), slot) ↦
            let fits =
              (t.fits i free
                (allocate_device-some d.devices {i = i} {dev = free} slot).0).addr_len in
            let whole = copy_over_whole addr free.ble_addr.addr (len ∙ sym fits) in
            subst Commissions
              (done-injective (rw (unknown, slot, whole, store_device, register) at e))
              (commission i free p seq marker type len on unknown slot extracted long rs rm dt
                (refl, refl))
      ]

  store_key-Step :
      (seq marker : ℕ) (type : DeviceType) {r : Commissioned}
      → d.commissioning_enabled ≡ true
      → 22 ≤ length p
      → read_seq p ≡ done seq
      → read p 4 ≡ done marker
      → detect_device_type addr ≡ done type
      → store_key d addr 1 rssi p seq type marker ≡ done r
      → Commissions r
  store_key-Step seq marker type {r} on long rs rm dt e =
      let stm = is_stm_format p marker in
      elim (Bool-cases (is_sensor type && not stm)) [
        | inl refused ↦
            subst Commissions (done-injective (rw (refused, store_key) at e)) (ignore refl refl)
        | inr fine ↦ elim (Bool-cases (ltb (length p) (key_offset p marker + 16))) [
          | inl short ↦
              subst Commissions (done-injective (rw (fine, short, store_key) at e))
                (ignore refl refl)
          | inr enough ↦
              store_device-Step seq marker type on long rs rm dt (rw (fine, enough, store_key) at e)
        ]
      ]

  handle_commissioning-Step :
      {r : Commissioned}
      → d.commissioning_enabled ≡ true
      → 22 ≤ length p
      → handle_commissioning d addr 1 rssi p ≡ done r
      → Commissions r
  unfolding handle_commissioning
  handle_commissioning-Step {r} on long e =
      let (seq, rs, e1) =
        bind-eq-done (read_seq p)
          (λ seq. detect_device_type addr >>= λ type.
            read p 4 >>= λ marker. store_key d addr 1 rssi p seq type marker)
          {b = r} (rw (le→ltb (length p) 22 long, handle_commissioning) at e) in
      let (type, dt, e2) =
        bind-eq-done (detect_device_type addr)
          (λ type. read p 4 >>= λ marker. store_key d addr 1 rssi p seq type marker) e1 in
      let (marker, rm, e3) = bind-eq-done (read p 4) (store_key d addr 1 rssi p seq type) e2 in
      store_key-Step seq marker type on long rs rm dt e3

  abbrev Processes : EnoceanDriver × List Event → Type 0
  Processes r = Step crypto d addr rssi adv_data r.1 r.0

  process_unknown-Step :
      {r : EnoceanDriver × List Event} → process_unknown d addr 1 rssi p ≡ done r → Processes r
  unfolding process_unknown
  process_unknown-Step e = elim (Bool-cases (leb 22 (length p) && d.commissioning_enabled)) [
    | inr off ↦ subst Processes (done-injective (rw (off, process_unknown) at e)) (ignore refl refl)
    | inl on ↦
        let (c, ran, e') =
          bind-eq-done (handle_commissioning d addr 1 rssi p)
            (λ (c : Commissioned). done (c.0, c.2)) (rw (on, process_unknown) at e) in
        subst Processes (done-injective e')
          (handle_commissioning-Step (ground arith) (ground arith) ran)
  ]

module _ (crypto : Decrypt) (d : EnoceanDriver) (addr : List ℕ) (rssi : ℤ)
    (t : IsTable d.devices) where
  process_payload-Step :
      (adv_data p : List ℕ) {r : EnoceanDriver × List Event}
      → length addr ≡ 6
      → extract_manufacturer_data adv_data ≡ done p
      → process_payload crypto d addr 1 rssi p ≡ done r
      → Step crypto d addr rssi adv_data r.1 r.0
  unfolding process_payload
  process_payload-Step adv_data p {r} len x e =
      let stays : done (d, []) ≡ done r → Step crypto d addr rssi adv_data r.1 r.0 =
        λ q. subst (Steps crypto d addr rssi adv_data p) (done-injective q) (ignore refl refl) in
      elim (Bool-cases (length p == 0)) [
        | inl nothing ↦ stays (rw (nothing, process_payload) at e)
        | inr some_bytes ↦ elim (Bool-cases (ltb (length p) k_data_payload_min)) [
          | inl short ↦ stays (rw (some_bytes, short, process_payload) at e)
          | inr long ↦ elim (Option-cases (find_device addr d.devices)) [
            | inl unknown ↦
                process_unknown-Step crypto d addr rssi adv_data p t len unknown x
                  (rw (some_bytes, long, unknown, process_payload) at e)
            | inr ((i, dev), known) ↦
                process_known-Step crypto d addr rssi adv_data p i dev len known x
                  (rw (some_bytes, long, known, process_payload) at e)
          ]
        ]
      ]

  process_initialised-Step :
      (addr_type adv_type : ℕ) (adv_data : List ℕ) {r : EnoceanDriver × List Event}
      → process_initialised crypto d addr addr_type adv_type rssi adv_data ≡ done r
      → Step crypto d addr rssi adv_data r.1 r.0
  unfolding process_initialised
  process_initialised-Step addr_type adv_type adv_data {r} e =
      let stays : done (d, []) ≡ done r → Step crypto d addr rssi adv_data r.1 r.0 =
        λ q. subst (Steps crypto d addr rssi adv_data []) (done-injective q) (ignore refl refl) in
      elim (Bool-cases (length addr == 6)) [
        | inr other ↦ stays (rw (other, process_initialised) at e)
        | inl six ↦ elim (Bool-cases (not (adv_type == 3) || not (addr_type == 1))) [
          | inl foreign ↦ stays (rw (six, foreign, process_initialised) at e)
          | inr ours ↦
              let random : addr_type ≡ 1 = ground arith in
              let (p, x, e') =
                bind-eq-done (extract_manufacturer_data adv_data)
                  (process_payload crypto d addr addr_type rssi)
                  (rw (six, ours, process_initialised) at e) in
              process_payload-Step adv_data p ((==_iff (length addr) 6).0 six) x
                (subst (λ a. process_payload crypto d addr a rssi p ≡ done r) random e')
        ]
      ]

  -- Whatever process_advertisement returns, for any crypto backend and any advertisement, is a step
  -- of the specification, if the device table is well formed before.
  pub process_advertisement-Step :
      (addr_type adv_type : ℕ) (adv_data : List ℕ) {events : List Event} {d' : EnoceanDriver}
      → process_advertisement crypto d addr addr_type adv_type rssi adv_data ≡ done (d', events)
      → Step crypto d addr rssi adv_data events d'
  unfolding process_advertisement
  process_advertisement-Step addr_type adv_type adv_data {events} {d'} e =
      let r : EnoceanDriver × List Event = (d', events) in
      let body = process_initialised crypto d addr addr_type adv_type rssi adv_data in
      let guarded = λ (b : Bool). if not b then done (d, []) else body in
      elim (Bool-cases d.initialised) [
        | inr off ↦
            let q : done (d, []) ≡ done r = sym (ap guarded off) ∙ e in
            subst (Steps crypto d addr rssi adv_data []) (done-injective q) (ignore refl refl)
        | inl ready ↦
            process_initialised-Step addr_type adv_type adv_data (sym (ap guarded ready) ∙ e)
      ]
