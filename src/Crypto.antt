-- ===== src/Crypto.antt =====
-- platform/common/icrypto/ICrypto.hpp: the interface of an AES-CCM backend. The backend is a
-- parameter: a function of the key, the nonce, the additional data, the ciphertext, the tag and
-- the size of the buffer for the plaintext.
pub mod Posix
pub mod Zephyr
use enocean_core.Base.{ℕ, Bool, false, not, List, length, ◌==◌, if◌then◌else◌}
use enocean_core.Enocean.Types.{k_key_len, k_nonce_len}

abbrev pub Decrypt : Type 0
Decrypt = List ℕ → List ℕ → List ℕ → List ℕ → List ℕ → ℕ → Bool

-- Checks the sizes, and calls the backend's `aes_ccm_decrypt_impl`.
unfoldable pub aes_ccm_decrypt : Decrypt → Decrypt
aes_ccm_decrypt impl key nonce aad ciphertext tag room =
    if not (length key == k_key_len)
    then false
    else if not (length nonce == k_nonce_len)
    then false
    else impl key nonce aad ciphertext tag room
