-- ===== src/Crypto/Zephyr.antt =====
-- platform/zephyr_core/crypto/Crypto.cpp: the backend on Zephyr's bt_ccm_decrypt, which is a
-- parameter: a function of the key, the nonce, the buffer with ciphertext and tag, the size of the
-- ciphertext, the additional data, the size of the plaintext buffer and the size of the tag. The
-- interface calls the backend with a nonce of 13 bytes, so that the copy of it is whole.
use enocean_core.Base.{
  ℕ, zero, suc, ◌+◌, ◌-◌, ◌≤◌, ◌≡◌, refl, arith, Bool, true, false, List, [], ◌∷◌, ◌++◌, length,
  length-append, replicate, ltb, le→ltb, if◌then◌else◌,
}
use enocean_core.Base.Bits.{low_bits}
use enocean_core.Base.Int.{ℤ, pos}
use mathlib.Core.List.{append-nil}
use enocean_core.Enocean.Types.{k_tag_len}
use enocean_core.Enocean.Advert.Structures.{encode}

abbrev pub BtCcmDecrypt : Type 0
BtCcmDecrypt = List ℕ → List ℕ → List ℕ → ℕ → List ℕ → ℕ → ℕ → ℤ

abbrev pub k_max_aad : ℕ
k_max_aad = 32

abbrev pub k_max_ct : ℕ
k_max_ct = 64

-- `err != 0` returns false.
abbrev pub is_zero : ℤ → Bool
is_zero (pos zero) = true
is_zero _ = false

-- The first `full_aad_len` bytes of `full_aad`: the header that the AD structure had on the air, and
-- the additional data.
abbrev pub full_aad : List ℕ → ℕ → List ℕ
full_aad aad ct_len =
    low_bits (1 + 2 + length aad + ct_len + k_tag_len) 8 ∷ 0xFF ∷ 0xDA ∷ 0x03 ∷ aad

-- `cipher_buf`: the ciphertext, the tag behind it, and zeros up to the size of the array.
abbrev pub cipher_buf : List ℕ → List ℕ → List ℕ
cipher_buf ciphertext tag = ciphertext ++ (tag ++ replicate (k_max_ct - length ciphertext) 0)

unfoldable pub aes_ccm_decrypt_impl :
    BtCcmDecrypt → List ℕ → List ℕ → List ℕ → List ℕ → List ℕ → ℕ → Bool
aes_ccm_decrypt_impl bt_ccm_decrypt key nonce aad ciphertext tag room =
    if ltb k_max_aad (length aad)
    then false
    else if ltb k_max_ct (length ciphertext)
    then false
    else is_zero (
        bt_ccm_decrypt key nonce (cipher_buf ciphertext tag) (length ciphertext)
          (full_aad aad (length ciphertext)) room k_tag_len)

-- For a telegram without ciphertext, cut into a body of at most 32 bytes and its tag, the backend
-- hands bt_ccm_decrypt additional data that, with the tag behind them, are the AD structure that
-- carried the telegram on the air: its length byte, its type byte, the company identifier and all
-- bytes of the telegram. The telegram is accepted exactly when bt_ccm_decrypt returns 0.
pub aes_ccm_decrypt_impl-encode :
    (bt_ccm_decrypt : BtCcmDecrypt) (key nonce body tag : List ℕ) (room : ℕ)
    → length tag ≡ 4
    → length body ≤ 32
    → (full : List ℕ) × (full ++ tag
        ≡ encode (record { type = 0xFF; payload = 0xDA ∷ 0x03 ∷ (body ++ tag) } ∷ []))
      × (aes_ccm_decrypt_impl bt_ccm_decrypt key nonce body [] tag room
          ≡ is_zero (bt_ccm_decrypt key nonce (tag ++ replicate 64 0) 0 full room 4))
unfolding aes_ccm_decrypt_impl
aes_ccm_decrypt_impl-encode bt_ccm_decrypt key nonce body tag room ht hb =
    let len : low_bits (1 + 2 + length body + 0 + 4) 8 ≡ suc (suc (suc (length (body ++ tag)))) =
      omega (arith, length-append body tag) in
    (full_aad body 0, rw (len, append-nil (body ++ tag)) refl, rw (le→ltb 32 (length body) hb))
