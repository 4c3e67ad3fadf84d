-- ===== src/Enocean/Sensor/Rounds.antt =====
-- One round of the loop over the sensor values, on each kind of field.
use enocean_core.Base.{
  ℕ, suc, ◌+◌, ◌*◌, ◌≡◌, ◌∙◌, ap, arith, List, ◌++◌, length, length-append, get_elem?-of_drop,
  length-drop, drop, Run, bit_or,
}
use enocean_core.Base.Bits.{◌<<◌, bit_or-shift}
use enocean_core.Enocean.Fields.Laws.{le_u32, or_bytes}
use enocean_core.Enocean.Types.{SensorData}
use enocean_core.Enocean.Sensor.{field, store}
use enocean_core.Enocean.Sensor.Fields.{
  Field, byte, half, word, variable, block, encode_field, IsValid, size, header_of,
}
use enocean_core.Enocean.Sensor.Applied.{apply}

bit_or-zero_left : (b : ℕ) → bit_or 0 (b << 0) ≡ b
bit_or-zero_left b = bit_or-shift 0 0 b (omega arith) ∙ omega arith

-- One round of the loop over one field, `k` being the index behind it.
module _ (xs : List ℕ) (j : ℕ) (next : ℕ → SensorData → Run SensorData) (d : SensorData) where
  round-byte :
      (t b0 : ℕ) (rest : List ℕ)
      → drop j xs ≡ encode_field (byte t b0) ++ rest
      → IsValid (byte t b0)
      → field xs t (j + 1) next d ≡ next (j + 2) (store t 1 b0 d)
  unfolding field
  round-byte t b0 rest e v = ground (
    arith,
    get_elem?-of_drop xs j 1 (j + 1 + 0) e (omega arith),
    length-drop j xs,
    ap length e,
    bit_or-zero_left b0,
  )

  round-half :
      (t b0 b1 : ℕ) (rest : List ℕ)
      → drop j xs ≡ encode_field (half t b0 b1) ++ rest
      → IsValid (half t b0 b1)
      → field xs (t + 64) (j + 1) next d ≡ next (j + 3) (store t 2 (b0 + b1 * 256) d)
  unfolding field
  round-half t b0 b1 rest e v = ground (
    arith,
    get_elem?-of_drop xs j 1 (j + 1 + 0) e (omega arith),
    get_elem?-of_drop xs j 2 (j + 1 + 1) e (omega arith),
    length-drop j xs,
    ap length e,
    bit_or-zero_left b0,
    bit_or-shift 8 b0 b1 v.1,
  )

  round-word :
      (t b0 b1 b2 b3 : ℕ) (rest : List ℕ)
      → drop j xs ≡ encode_field (word t b0 b1 b2 b3) ++ rest
      → IsValid (word t b0 b1 b2 b3)
      → field xs (t + 128) (j + 1) next d ≡ next (j + 5) (store t 4 (le_u32 b0 b1 b2 b3) d)
  unfolding field
  round-word t b0 b1 b2 b3 rest e v = ground (
    arith,
    get_elem?-of_drop xs j 1 (j + 1 + 0) e (omega arith),
    get_elem?-of_drop xs j 2 (j + 1 + 1) e (omega arith),
    get_elem?-of_drop xs j 3 (j + 1 + 2) e (omega arith),
    get_elem?-of_drop xs j 4 (j + 1 + 3) e (omega arith),
    length-drop j xs,
    ap length e,
    bit_or-zero_left b0,
    or_bytes b0 b1 b2 b3 v.1 v.2 v.3,
  )

  round-variable :
      (header : ℕ) (bytes rest : List ℕ)
      → drop j xs ≡ encode_field (variable header bytes) ++ rest
      → IsValid (variable header bytes)
      → field xs header (j + 1) next d ≡ next (j + 2 + length bytes) d
  unfolding field
  round-variable header bytes rest e v = ground (
    arith,
    get_elem?-of_drop xs j 1 (j + 1) e (omega arith),
    length-drop j xs,
    ap length e,
    length-append bytes rest,
  )

  round-block :
      (header : ℕ) (bytes rest : List ℕ)
      → drop j xs ≡ encode_field (block header bytes) ++ rest
      → IsValid (block header bytes)
      → field xs header (j + 1) next d ≡ next (j + 23) d
  unfolding field
  round-block header bytes rest e v =
      ground (arith, length-drop j xs, ap length e, length-append bytes rest)

pub round_lem :
    (f : Field) (xs : List ℕ) (j : ℕ) (next : ℕ → SensorData → Run SensorData) (d : SensorData)
    (rest : List ℕ)
    → drop j xs ≡ encode_field f ++ rest
    → IsValid f
    → field xs (header_of f) (j + 1) next d ≡ next (j + size f) (apply f d)
round_lem (byte t b0) xs j next d rest e v = round-byte xs j next d t b0 rest e v
round_lem (half t b0 b1) xs j next d rest e v = round-half xs j next d t b0 b1 rest e v
round_lem (word t b0 b1 b2 b3) xs j next d rest e v = round-word xs j next d t b0 b1 b2 b3 rest e v
round_lem (variable header bytes) xs j next d rest e v =
    let there : j + 2 + length bytes ≡ j + suc (suc (length bytes)) = omega arith in
    round-variable xs j next d header bytes rest e v ∙ ap (λ k. next k d) there
round_lem (block header bytes) xs j next d rest e v =
    let there : j + 23 ≡ j + suc (length bytes) = omega (arith, v.1) in
    round-block xs j next d header bytes rest e v ∙ ap (λ k. next k d) there
