-- ===== src/Crypto/Posix.antt =====
-- platform/posix_core/crypto/Crypto.cpp: the OpenSSL backend. OpenSSL is a parameter: the calls of
-- libcrypto that the backend makes, each on a context, with the return value and the context after
-- it. What a call writes to its output buffer is not modelled, since only the verdict is returned.
use enocean_core.Base.{
  ℕ, zero, suc, ◌≡◌, ◌∙◌, ap, ◌⊎◌, inl, inr, Bool, true, false, not, ◌&&◌, List, [], ◌∷◌, length,
  Option, none, some, ltb, if◌then◌else◌,
}
use enocean_core.Base.Int.{ℤ, pos, negsuc}

-- EVP_CIPHER_CTX_new, and the calls on a context in the order in which the backend makes them.
pub record Evp : Type 1 where
  pub Ctx : Type 0
  pub ctx_new : Option Ctx
  pub decrypt_init_cipher : Ctx → ℤ × Ctx
  pub ctrl_set_ivlen : Ctx → ℕ → ℤ × Ctx
  pub ctrl_set_tag : Ctx → List ℕ → ℤ × Ctx
  pub decrypt_init_key : Ctx → List ℕ → List ℕ → ℤ × Ctx
  pub decrypt_update_len : Ctx → ℕ → ℤ × Ctx
  pub decrypt_update_aad : Ctx → List ℕ → ℤ × Ctx
  pub decrypt_update : Ctx → List ℕ → ℤ × Ctx

-- `!= 1` returns false.
abbrev pub is_one : ℤ → Bool
is_one (pos (suc zero)) = true
is_one _ = false

-- `ret >= 0`.
abbrev pub is_nonnegative : ℤ → Bool
is_nonnegative (pos n) = true
is_nonnegative (negsuc n) = false

abbrev pub is_empty : List ℕ → Bool
is_empty [] = true
is_empty (x ∷ xs) = false

module _ (evp : Evp) where
  -- The call with the additional data, left out when there is none.
  abbrev update_aad : evp.Ctx → List ℕ → ℤ × evp.Ctx
  update_aad ctx aad = if not (is_empty aad) then evp.decrypt_update_aad ctx aad else (pos 1, ctx)

  -- The check of the output buffer, and the last call.
  unfoldable pub finish : evp.Ctx → List ℕ → ℕ → Bool
  finish ctx ciphertext room =
      if not (is_empty ciphertext) && ltb room (length ciphertext)
      then false
      else is_nonnegative (evp.decrypt_update ctx ciphertext).0

  -- The calls up to the additional data; no context if one of them does not return 1. The source
  -- makes no call after one that fails, and here the result of such a call is not used.
  unfoldable pub prepare : evp.Ctx → List ℕ → List ℕ → List ℕ → List ℕ → List ℕ → Option evp.Ctx
  prepare ctx key nonce aad ciphertext tag =
      let r1 = evp.decrypt_init_cipher ctx in
      let r2 = evp.ctrl_set_ivlen r1.1 (length nonce) in
      let r3 = evp.ctrl_set_tag r2.1 tag in
      let r4 = evp.decrypt_init_key r3.1 key nonce in
      let r5 = evp.decrypt_update_len r4.1 (length ciphertext) in
      let r6 = update_aad r5.1 aad in
      if is_one r1.0 && is_one r2.0 && is_one r3.0 && is_one r4.0 && is_one r5.0 && is_one r6.0
      then some r6.1
      else none

  abbrev finish_if : Option evp.Ctx → List ℕ → ℕ → Bool
  finish_if none ciphertext room = false
  finish_if (some ready) ciphertext room = finish ready ciphertext room

  abbrev decrypt_if : Option evp.Ctx → List ℕ → List ℕ → List ℕ → List ℕ → List ℕ → ℕ → Bool
  decrypt_if none key nonce aad ciphertext tag room = false
  decrypt_if (some ctx) key nonce aad ciphertext tag room =
      finish_if (prepare ctx key nonce aad ciphertext tag) ciphertext room

  unfoldable pub aes_ccm_decrypt_impl : List ℕ → List ℕ → List ℕ → List ℕ → List ℕ → ℕ → Bool
  unfolding prepare finish
  aes_ccm_decrypt_impl key nonce aad ciphertext tag room =
      decrypt_if evp.ctx_new key nonce aad ciphertext tag room

  -- Without ciphertext, if the last call reports failure by 0, and success by 1, then the backend
  -- accepts every tag for which the calls before it succeed: its result does not depend on what the last call, which
  -- verifies the tag, reports.
  pub aes_ccm_decrypt_impl-accepts :
      (key nonce aad tag : List ℕ) (room : ℕ) (ctx ready : evp.Ctx)
      → ((c : evp.Ctx) (bytes : List ℕ)
          → ((evp.decrypt_update c bytes).0 ≡ pos 1) ⊎ ((evp.decrypt_update c bytes).0 ≡ pos 0))
      → evp.ctx_new ≡ some ctx
      → prepare ctx key nonce aad [] tag ≡ some ready
      → aes_ccm_decrypt_impl key nonce aad [] tag room ≡ true
  unfolding aes_ccm_decrypt_impl finish
  aes_ccm_decrypt_impl-accepts key nonce aad tag room ctx ready reports new prepared =
      ap (λ o. decrypt_if o key nonce aad [] tag room) new
      ∙ ap (λ o. finish_if o [] room) prepared
      ∙ elim (reports ready []) [
        | inl good ↦ ap is_nonnegative good
        | inr bad ↦ ap is_nonnegative bad
      ]
