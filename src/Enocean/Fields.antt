-- ===== src/Enocean/Fields.antt =====
-- src/enocean/EnoceanDriver.ipp: the fields of a telegram and of an address. The sequence number is
-- assembled by the same expression in handle_commissioning, handle_switch and handle_sensor.
pub mod Laws
use enocean_core.Base.{
  ℕ, zero, suc, ◌+◌, Bool, ◌&&◌, ◌||◌, List, [], ◌∷◌, ◌++◌, length, Run, done, ◌>>=◌, read, ltb,
  ◌==◌, if◌then◌else◌, bit_or,
}
use enocean_core.Base.Bits.{◌<<◌, ◌>>◌, low_bits}
use enocean_core.Enocean.Types.{k_addr_len, DeviceType}

abbrev pub k_seq_offset : ℕ
k_seq_offset = 0

abbrev pub k_switch_addr5 : ℕ
k_switch_addr5 = 0x03

abbrev pub k_switch_addr4 : ℕ
k_switch_addr4 = 0xDA

abbrev pub k_switch_ptm216b_addr5 : ℕ
k_switch_ptm216b_addr5 = 0xE2

abbrev pub k_switch_ptm216b_addr4 : ℕ
k_switch_ptm216b_addr4 = 0x15

abbrev pub k_sensor_addr5 : ℕ
k_sensor_addr5 = 0xE5

unfoldable pub read_seq : List ℕ → Run ℕ
read_seq mfr_payload = do
  b0 ← read mfr_payload k_seq_offset
  b1 ← read mfr_payload (k_seq_offset + 1)
  b2 ← read mfr_payload (k_seq_offset + 2)
  b3 ← read mfr_payload (k_seq_offset + 3)
  done (bit_or (bit_or (bit_or b0 (b1 << 8)) (b2 << 16)) (b3 << 24))

-- The loop that copies the address, from index `i` on.
copy_addr : ℕ → List ℕ → ℕ → Run (List ℕ)
copy_addr zero addr i = done []
copy_addr (suc n) addr i = do b ← read addr i; bs ← copy_addr n addr (i + 1); done (b ∷ bs)

unfoldable pub build_nonce : List ℕ → ℕ → Run (List ℕ)
unfolding copy_addr
build_nonce addr seq = do
  prefix ← copy_addr k_addr_len addr 0
  done (
      prefix
      ++ (low_bits seq 8
          ∷ low_bits (seq >> 8) 8
          ∷ low_bits (seq >> 16) 8
          ∷ low_bits (seq >> 24) 8
          ∷ 0
          ∷ 0
          ∷ 0
          ∷ []))

abbrev pub check_sequence : ℕ → ℕ → Bool
check_sequence stored new_seq = ltb stored new_seq

unfoldable pub detect_device_type : List ℕ → Run DeviceType
detect_device_type addr = if ltb (length addr) k_addr_len then done DeviceType.unknown else do
  a5 ← read addr 5
  a4 ← read addr 4
  done (
      if a5 == k_switch_addr5 && a4 == k_switch_addr4
        || a5 == k_switch_ptm216b_addr5 && a4 == k_switch_ptm216b_addr4
      then DeviceType.switch
      else if a5 == k_sensor_addr5
      then DeviceType.sensor
      else DeviceType.unknown)
