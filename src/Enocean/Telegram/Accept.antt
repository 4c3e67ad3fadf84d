-- ===== src/Enocean/Telegram/Accept.antt =====
-- Genuine telegrams, as a sender lays them out, and what handle_switch and handle_sensor make of
-- them.
use enocean_core.Base.{
  ℕ, ◌+◌, ◌-◌, ◌*◌, ◌≤◌, ◌<◌, ◌≡◌, refl, ◌∙◌, sym, ap, arith, ◌⊎◌, true, false, List, [], ◌∷◌, ◌++◌,
  length, length-append, drop-append, take-append, take, All, done, subspan, ltb, le→ltb, lt→ltb,
  ◌==◌, ==_iff, if◌then◌else◌, bit_and,
}
use enocean_core.Base.Bits.{low_bits, ◌>>◌, passes, passes-lt}
use enocean_core.Crypto.{Decrypt, aes_ccm_decrypt}
use enocean_core.Enocean.Types.{ButtonAction, EnoceanDevice, EnoceanCallbacks, Event}
use enocean_core.Enocean.Fields.Laws.{
  IsByte, IsAddr, le_u32, read_seq-le_u32, seq_bytes, build_nonce-append,
}
use enocean_core.Enocean.Sensor.Fields.{Field, encode, IsValid, sensor_data_of}
use enocean_core.Enocean.Sensor.RoundTrip.{decode_sensor_data-encode}
use enocean_core.Enocean.Telegram.{
  authenticate, handle_switch, handle_sensor, switch_telegram, sensor_telegram, sensor_values,
  dispatch_switch, button_events, is_optional_len,
}

subspan-suffix :
    (xs ys : List ℕ) (n : ℕ)
    → n ≡ length ys
    → subspan (xs ++ ys) (length (xs ++ ys) - n) n ≡ done ys
subspan-suffix xs ys n e =
    let at : length (xs ++ ys) - n ≡ length xs = omega (arith, length-append xs ys) in
    let inside = le→ltb (length (xs ++ ys)) (length xs + n) (omega (arith, length-append xs ys)) in
    rw (at, inside, drop-append xs ys, e) (ap done (take_whole ys))
  where
    take_whole : (zs : List ℕ) → take (length zs) zs ≡ zs
    take_whole [] = refl
    take_whole (z ∷ zs) = ap (◌∷◌ z) (take_whole zs)

subspan-prefix : (xs ys : List ℕ) (n : ℕ) → n ≡ length xs → subspan (xs ++ ys) 0 n ≡ done xs
subspan-prefix xs ys n e =
    let inside = le→ltb (length (xs ++ ys)) (0 + length xs) (omega (arith, length-append xs ys)) in
    rw (e, inside) (ap done (take-append xs ys))

length-seq_bytes : (addr : List ℕ) (seq : ℕ) → IsAddr addr → length (addr ++ seq_bytes seq) ≡ 13
unfolding seq_bytes
length-seq_bytes addr seq h = length-append addr _ ∙ omega arith

-- The backend gets the device's key, the address and the number as nonce, everything before the tag
-- as additional data, no ciphertext, and the tag.
pub authenticate-append :
    (crypto : Decrypt) (dev : EnoceanDevice) (body tag : List ℕ) (seq : ℕ)
    → length dev.key ≡ 16
    → IsAddr dev.ble_addr.addr
    → length tag ≡ 4
    → authenticate crypto dev (body ++ tag) seq
      ≡ done (crypto dev.key (dev.ble_addr.addr ++ seq_bytes seq) body [] tag 0)
unfolding authenticate aes_ccm_decrypt
authenticate-append crypto dev body tag seq hk ha ht =
    let at : length (body ++ tag) - 4 ≡ length body = omega (arith, length-append body tag) in
    let key_fits = (==_iff (length dev.key) 16).1 hk in
    let nonce_fits =
      (==_iff (length (dev.ble_addr.addr ++ seq_bytes seq)) 13).1
        (length-seq_bytes dev.ble_addr.addr seq ha) in
    rw (
      subspan-suffix body tag 4 (sym ht),
      subspan-prefix body tag (length (body ++ tag) - 4) at,
      build_nonce-append dev.ble_addr.addr seq ha,
      key_fits,
      nonce_fits,
    )

-- The status byte of a switch: the action in bit 0, the buttons in bits 1 to 4.
abbrev pub status_byte : ButtonAction → ℕ → ℕ
status_byte ButtonAction.press buttons = 2 * buttons + 1
status_byte ButtonAction.release buttons = 2 * buttons

-- The lengths of optional data that the switch protocol defines.
abbrev pub IsOptionalLen : ℕ → Type 0
IsOptionalLen n = (n ≡ 0) ⊎ ((n ≡ 1) ⊎ ((n ≡ 2) ⊎ (n ≡ 4)))

-- The four bytes of the number, and then the rest.
abbrev pub numbered : ℕ → ℕ → ℕ → ℕ → List ℕ → List ℕ
numbered b0 b1 b2 b3 rest = b0 ∷ b1 ∷ b2 ∷ b3 ∷ rest

-- No reserved bit is set.
status_clear :
    (action : ButtonAction) (buttons : ℕ)
    → buttons < 16
    → bit_and (status_byte action buttons) 0xE0 ≡ 0
status_clear ButtonAction.press buttons h =
    (==_iff _ 0).0 (passes-lt (λ n. bit_and (2 * n + 1) 0xE0 == 0) 16 h (unfold passes in refl))
status_clear ButtonAction.release buttons h =
    (==_iff _ 0).0 (passes-lt (λ n. bit_and (2 * n) 0xE0 == 0) 16 h (unfold passes in refl))

abbrev pub button_event : EnoceanCallbacks → EnoceanDevice → ButtonAction → ℕ → List ℕ → List Event
button_event callbacks dev action buttons opt =
    if callbacks.button then Event.button dev action buttons opt ∷ [] else []

button_events-status_byte :
    (callbacks : EnoceanCallbacks) (dev : EnoceanDevice) (action : ButtonAction) (buttons : ℕ)
    (opt : List ℕ)
    → buttons < 16
    → button_events callbacks dev (status_byte action buttons) opt
      ≡ button_event callbacks dev action buttons opt
unfolding button_events
button_events-status_byte callbacks dev ButtonAction.press buttons opt h =
    let bit : low_bits (2 * buttons + 1) 1 ≡ 1 = omega arith in
    let field : low_bits ((2 * buttons + 1) >> 1) 4 ≡ buttons = omega arith in rw (bit, field)
button_events-status_byte callbacks dev ButtonAction.release buttons opt h =
    let bit : low_bits (2 * buttons) 1 ≡ 0 = omega arith in
    let field : low_bits ((2 * buttons) >> 1) 4 ≡ buttons = omega arith in rw (bit, field)

dispatch_switch-status_byte :
    (callbacks : EnoceanCallbacks) (dev : EnoceanDevice) (b0 b1 b2 b3 : ℕ) (action : ButtonAction)
    (buttons : ℕ) (opt tag : List ℕ)
    → buttons < 16
    → IsOptionalLen (length opt)
    → length tag ≡ 4
    → dispatch_switch callbacks dev
        (numbered b0 b1 b2 b3 (status_byte action buttons ∷ (opt ++ tag)))
        (status_byte action buttons)
      ≡ (dev, true, button_event callbacks dev action buttons opt)
unfolding dispatch_switch
dispatch_switch-status_byte callbacks dev b0 b1 b2 b3 action buttons [] tag hb ho ht =
    rw (ht)
      (ap (λ e. (dev, true, e)) (button_events-status_byte callbacks dev action buttons [] hb))
dispatch_switch-status_byte callbacks dev b0 b1 b2 b3 action buttons (o ∷ opt) tag hb ho ht =
    let p = numbered b0 b1 b2 b3 (status_byte action buttons ∷ ((o ∷ opt) ++ tag)) in
    let whole : length ((o ∷ opt) ++ tag) ≡ length (o ∷ opt) + 4 =
      omega (arith, length-append (o ∷ opt) tag) in
    let more : ltb 5 (length p - 4) ≡ true = lt→ltb 5 (length p - 4) (omega (arith, whole)) in
    let opt_len : length p - 4 - 5 ≡ length (o ∷ opt) = omega (arith, whole) in
    rw (more, opt_len, is_optional (length (o ∷ opt)) (omega arith) ho, take-append (o ∷ opt) tag)
      (ap (λ e. (dev, true, e))
        (button_events-status_byte callbacks dev action buttons (o ∷ opt) hb))
  where
    is_optional : (n : ℕ) → 0 < n → IsOptionalLen n → is_optional_len n ≡ true
    is_optional n h ho = ground arith

-- A genuine telegram of a switch, in the layout of the switch protocol and with a newer number, is
-- accepted: the number is stored, and the button callback, if set, gets the action, the buttons and
-- the optional data that the telegram was built from. The tag is genuine when the backend accepts it
-- for the device's key, the nonce of the address and the number, and all bytes before the tag.
pub handle_switch-accept :
    (crypto : Decrypt) (callbacks : EnoceanCallbacks) (dev : EnoceanDevice) (b0 b1 b2 b3 : ℕ)
    (action : ButtonAction) (buttons : ℕ) (opt tag : List ℕ)
    → length dev.key ≡ 16
    → IsAddr dev.ble_addr.addr
    → IsByte b0
    → IsByte b1
    → IsByte b2
    → dev.seq_num < le_u32 b0 b1 b2 b3
    → buttons < 16
    → IsOptionalLen (length opt)
    → length tag ≡ 4
    → crypto dev.key
        (dev.ble_addr.addr ++ seq_bytes (le_u32 b0 b1 b2 b3))
        (numbered b0 b1 b2 b3 (status_byte action buttons ∷ opt))
        []
        tag
        0
      ≡ true
    → (let after = record dev { seq_num = le_u32 b0 b1 b2 b3 } in
        handle_switch crypto callbacks dev
          (numbered b0 b1 b2 b3 (status_byte action buttons ∷ (opt ++ tag)))
        ≡ done (after, true, button_event callbacks after action buttons opt))
unfolding handle_switch switch_telegram
handle_switch-accept crypto callbacks dev b0 b1 b2 b3 action buttons opt tag hk ha h0 h1 h2 newer hb
      ho ht genuine =
    let state = status_byte action buttons in
    let seq = le_u32 b0 b1 b2 b3 in
    let after = record dev { seq_num = seq } in
    let body = numbered b0 b1 b2 b3 (state ∷ opt) in
    let len : length (body ++ tag) ≡ 9 + length opt = omega (arith, length-append body tag) in
    let long = le→ltb (length (body ++ tag)) 9 (omega arith) in
    let short = le→ltb 13 (length (body ++ tag)) (short_enough (length opt) len ho) in
    rw
      (
        long,
        read_seq-le_u32 b0 b1 b2 b3 (state ∷ (opt ++ tag)) h0 h1 h2,
        lt→ltb dev.seq_num seq newer,
        short,
        status_clear action buttons hb,
        authenticate-append crypto dev body tag seq hk ha ht,
        genuine,
      )
      (ap done
        (dispatch_switch-status_byte callbacks after b0 b1 b2 b3 action buttons opt tag hb ho ht))
  where
    short_enough : {len : ℕ} (n : ℕ) → len ≡ 9 + n → IsOptionalLen n → len ≤ 13
    short_enough n e h = ground arith

sensor_values-encode :
    (b0 b1 b2 b3 : ℕ) (fs : List Field) (tag : List ℕ)
    → All IsValid fs
    → length tag ≡ 4
    → sensor_values (numbered b0 b1 b2 b3 (encode fs ++ tag)) ≡ done (sensor_data_of fs)
unfolding sensor_values
sensor_values-encode b0 b1 b2 b3 fs tag v ht =
    let p = numbered b0 b1 b2 b3 (encode fs ++ tag) in
    let values = encode fs in
    let more : ltb 4 (length p) ≡ true =
      lt→ltb 4 (length p) (omega (arith, length-append values tag)) in
    let count : length p - 4 - 4 ≡ length values = omega (arith, length-append values tag) in
    let inside : ltb (length p) (4 + length values) ≡ false =
      le→ltb (length p) (4 + length values) (omega (arith, length-append values tag)) in
    rw (more, count, inside, take-append values tag) (decode_sensor_data-encode fs v)

-- A genuine telegram of a sensor, that holds any sequence of valid fields and has a newer number, is
-- accepted: the number is stored, and the sensor callback, if set, gets the values of the fields.
pub handle_sensor-accept :
    (crypto : Decrypt) (callbacks : EnoceanCallbacks) (dev : EnoceanDevice) (b0 b1 b2 b3 : ℕ)
    (fs : List Field) (tag : List ℕ)
    → length dev.key ≡ 16
    → IsAddr dev.ble_addr.addr
    → IsByte b0
    → IsByte b1
    → IsByte b2
    → dev.seq_num < le_u32 b0 b1 b2 b3
    → 0 < length (encode fs)
    → All IsValid fs
    → length tag ≡ 4
    → crypto dev.key
        (dev.ble_addr.addr ++ seq_bytes (le_u32 b0 b1 b2 b3))
        (numbered b0 b1 b2 b3 (encode fs))
        []
        tag
        0
      ≡ true
    → (let after = record dev { seq_num = le_u32 b0 b1 b2 b3 } in
        handle_sensor crypto callbacks dev (numbered b0 b1 b2 b3 (encode fs ++ tag))
        ≡ done (
          after,
          true,
          if callbacks.sensor then Event.sensor after (sensor_data_of fs) [] ∷ [] else [],
        ))
unfolding handle_sensor sensor_telegram
handle_sensor-accept crypto callbacks dev b0 b1 b2 b3 fs tag hk ha h0 h1 h2 newer some_value v ht
      genuine =
    let seq = le_u32 b0 b1 b2 b3 in
    let body = numbered b0 b1 b2 b3 (encode fs) in
    let long = le→ltb (length (body ++ tag)) 9 (omega (arith, length-append (encode fs) tag)) in
    rw (
      long,
      read_seq-le_u32 b0 b1 b2 b3 (encode fs ++ tag) h0 h1 h2,
      lt→ltb dev.seq_num seq newer,
      authenticate-append crypto dev body tag seq hk ha ht,
      genuine,
      sensor_values-encode b0 b1 b2 b3 fs tag v ht,
    )
