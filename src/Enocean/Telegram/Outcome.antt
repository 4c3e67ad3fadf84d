-- ===== src/Enocean/Telegram/Outcome.antt =====
-- The two outcomes of handle_switch and handle_sensor (src/enocean/EnoceanDriver.ipp), refusal and
-- acceptance.
use enocean_core.Base.{
  ℕ, ◌≤◌, ◌<◌, ◌≡◌, sym, arith, ◌⊎◌, inl, inr, Bool, true, false, List, length, All, done,
  bind-eq-done, done-injective, subst, read, ltb, ltb→lt, ◌==◌, Bool-cases, bit_and,
}
use enocean_core.Crypto.{Decrypt}
use enocean_core.Enocean.Types.{EnoceanDevice, EnoceanCallbacks, SensorData, Event}
use enocean_core.Enocean.Fields.{read_seq}
use enocean_core.Enocean.Telegram.{
  Handled, rejected, authenticate, dispatch_switch, dispatch_sensor, switch_telegram,
  sensor_telegram, handle_switch, handle_sensor, conclude_switch, conclude_sensor, verify_switch,
  k_data_payload_min, sensor_values, k_switch_state_offset, k_switch_payload_max,
  k_status_reserved_mask,
}

-- The callback was given this device.
abbrev pub IsOf : EnoceanDevice → Event → Type 0
IsOf dev (Event.button d action changed opt) = d ≡ dev
IsOf dev (Event.sensor d values opt) = d ≡ dev
IsOf dev (Event.commissioned d) = d ≡ dev

pub record Accepted (crypto : Decrypt) (dev : EnoceanDevice) (p : List ℕ) (h : Handled)
    : Type 0 where
  pub seq : ℕ
  pub reads : read_seq p ≡ done seq
  pub newer : dev.seq_num < seq
  pub genuine : authenticate crypto dev p seq ≡ done true
  pub device : h.0 ≡ record dev { seq_num = seq }
  pub events : All (IsOf (record dev { seq_num = seq })) h.2
  pub at_most_one : length h.2 ≤ 1

abbrev pub Outcome : Decrypt → EnoceanDevice → List ℕ → Handled → Type 0
Outcome crypto dev p h = (h ≡ rejected dev) ⊎ Accepted crypto dev p h

-- What the ends of the handlers return: the device that they were given, and its callback if any.
record Dispatched (dev : EnoceanDevice) (h : Handled) : Type 0 where
  device : h.0 ≡ dev
  events : All (IsOf dev) h.2
  at_most_one : length h.2 ≤ 1

dispatch_switch-Dispatched :
    (callbacks : EnoceanCallbacks) (dev : EnoceanDevice) (p : List ℕ) (state : ℕ)
    → Dispatched dev (dispatch_switch callbacks dev p state)
unfolding dispatch_switch
dispatch_switch-Dispatched callbacks dev p state = ground arith

dispatch_sensor-Dispatched :
    (callbacks : EnoceanCallbacks) (dev : EnoceanDevice) (values : SensorData)
    → Dispatched dev (dispatch_sensor callbacks dev values)
dispatch_sensor-Dispatched callbacks dev values = ground arith

module _ (crypto : Decrypt) (callbacks : EnoceanCallbacks) (dev : EnoceanDevice) (p : List ℕ) where
  Outcome-accepted :
      (seq : ℕ) {h : Handled}
      → read_seq p ≡ done seq
      → dev.seq_num < seq
      → authenticate crypto dev p seq ≡ done true
      → Dispatched (record dev { seq_num = seq }) h
      → Outcome crypto dev p h
  Outcome-accepted seq r n g d = inr (record {
    seq = seq;
    reads = r;
    newer = n;
    genuine = g;
    device = d.device;
    events = d.events;
    at_most_one = d.at_most_one;
  })

  conclude_switch-Outcome :
      (seq state : ℕ) (ok : Bool) {h : Handled}
      → read_seq p ≡ done seq
      → dev.seq_num < seq
      → authenticate crypto dev p seq ≡ done ok
      → done (conclude_switch callbacks dev p seq state ok) ≡ done h
      → Outcome crypto dev p h
  conclude_switch-Outcome seq state false r n a e = inl (sym (done-injective e))
  conclude_switch-Outcome seq state true r n a e = Outcome-accepted seq r n a (
      subst (Dispatched (record dev { seq_num = seq })) (done-injective e)
        (dispatch_switch-Dispatched callbacks (record dev { seq_num = seq }) p state))

  verify_switch-Outcome :
      (seq state : ℕ) {h : Handled}
      → read_seq p ≡ done seq
      → dev.seq_num < seq
      → verify_switch crypto callbacks dev p seq state ≡ done h
      → Outcome crypto dev p h
  verify_switch-Outcome seq state r n e =
      elim (Bool-cases (bit_and state k_status_reserved_mask == 0)) [
        | inr set ↦ inl (sym (done-injective (rw (set, verify_switch) at e)))
        | inl clear ↦
            let (ok, a, e') =
              bind-eq-done (authenticate crypto dev p seq)
                (λ auth_ok. done (conclude_switch callbacks dev p seq state auth_ok))
                (rw (clear, verify_switch) at e) in
            conclude_switch-Outcome seq state ok r n a e'
      ]

  switch_telegram-Outcome :
      (seq : ℕ) {h : Handled}
      → read_seq p ≡ done seq
      → switch_telegram crypto callbacks dev p seq ≡ done h
      → Outcome crypto dev p h
  unfolding switch_telegram
  switch_telegram-Outcome seq r e = elim (Bool-cases (ltb dev.seq_num seq)) [
    | inr old ↦ inl (sym (done-injective (rw (old, switch_telegram) at e)))
    | inl new ↦ elim (Bool-cases (ltb k_switch_payload_max (length p))) [
      | inl long ↦ inl (sym (done-injective (rw (new, long, switch_telegram) at e)))
      | inr fits ↦
          let (state, _, e') =
            bind-eq-done (read p k_switch_state_offset) (verify_switch crypto callbacks dev p seq)
              (rw (new, fits, switch_telegram) at e) in
          verify_switch-Outcome seq state r (ltb→lt _ _ new) e'
    ]
  ]

  conclude_sensor-Outcome :
      (seq : ℕ) (ok : Bool) {h : Handled}
      → read_seq p ≡ done seq
      → dev.seq_num < seq
      → authenticate crypto dev p seq ≡ done ok
      → conclude_sensor callbacks dev p seq ok ≡ done h
      → Outcome crypto dev p h
  conclude_sensor-Outcome seq false r n a e = inl (sym (done-injective e))
  conclude_sensor-Outcome seq true r n a e =
      let (values, _, e') =
        bind-eq-done (sensor_values p)
          (λ v. done (dispatch_sensor callbacks (record dev { seq_num = seq }) v)) e in
      Outcome-accepted seq r n a (
        subst (Dispatched (record dev { seq_num = seq })) (done-injective e')
          (dispatch_sensor-Dispatched callbacks (record dev { seq_num = seq }) values))

  sensor_telegram-Outcome :
      (seq : ℕ) {h : Handled}
      → read_seq p ≡ done seq
      → sensor_telegram crypto callbacks dev p seq ≡ done h
      → Outcome crypto dev p h
  unfolding sensor_telegram
  sensor_telegram-Outcome seq r e = elim (Bool-cases (ltb dev.seq_num seq)) [
    | inr old ↦ inl (sym (done-injective (rw (old, sensor_telegram) at e)))
    | inl new ↦
        let (ok, a, e') =
          bind-eq-done (authenticate crypto dev p seq) (conclude_sensor callbacks dev p seq)
            (rw (new, sensor_telegram) at e) in
        conclude_sensor-Outcome seq ok r (ltb→lt _ _ new) a e'
  ]

  pub handle_switch-Outcome :
      {h : Handled} → handle_switch crypto callbacks dev p ≡ done h → Outcome crypto dev p h
  unfolding handle_switch
  handle_switch-Outcome e = elim (Bool-cases (ltb (length p) k_data_payload_min)) [
    | inl short ↦ inl (sym (done-injective (rw (short, handle_switch) at e)))
    | inr long ↦
        let (seq, r, e') =
          bind-eq-done (read_seq p) (switch_telegram crypto callbacks dev p)
            (rw (long, handle_switch) at e) in
        switch_telegram-Outcome seq r e'
  ]

  pub handle_sensor-Outcome :
      {h : Handled} → handle_sensor crypto callbacks dev p ≡ done h → Outcome crypto dev p h
  unfolding handle_sensor
  handle_sensor-Outcome e = elim (Bool-cases (ltb (length p) k_data_payload_min)) [
    | inl short ↦ inl (sym (done-injective (rw (short, handle_sensor) at e)))
    | inr long ↦
        let (seq, r, e') =
          bind-eq-done (read_seq p) (sensor_telegram crypto callbacks dev p)
            (rw (long, handle_sensor) at e) in
        sensor_telegram-Outcome seq r e'
  ]
