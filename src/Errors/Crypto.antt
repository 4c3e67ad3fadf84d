-- ===== src/Errors/Crypto.antt =====
-- platform/common/icrypto/CryptoError.hpp: the error codes, and their descriptions in the log. The description for a
-- value outside the enumeration is left out.
use Prim.Native.String.{String}
use enocean_core.Base.{◌≡◌, refl, List, [], ◌∷◌, some}
use enocean_core.ErrorHandler.{ErrorTraits}
use enocean_core.Errors.{find_by_name}

pub data CryptoError : Type 0 where
  not_initialised invalid_key invalid_nonce invalid_tag auth_failed : CryptoError
  system_error : CryptoError

unfoldable pub name : CryptoError → String
name not_initialised = "NotInitialised"
name invalid_key = "InvalidKey"
name invalid_nonce = "InvalidNonce"
name invalid_tag = "InvalidTag"
name auth_failed = "AuthFailed"
name system_error = "SystemError"

instance pub traits : ErrorTraits CryptoError
traits = record { name = name }

abbrev pub all : List CryptoError
all = not_initialised ∷ invalid_key ∷ invalid_nonce ∷ invalid_tag ∷ auth_failed ∷ system_error ∷ []

pub find_by_name-name : (e : CryptoError) → find_by_name name all (name e) ≡ some e
unfolding find_by_name name
find_by_name-name not_initialised = refl
find_by_name-name invalid_key = refl
find_by_name-name invalid_nonce = refl
find_by_name-name invalid_tag = refl
find_by_name-name auth_failed = refl
find_by_name-name system_error = refl
