-- ===== src/ErrorHandler.antt =====
-- include/error_handler/ErrorHandler.hpp: the result type with its monadic operations. Constructing
-- an error writes one line to the log, so each operation returns the lines it wrote beside its
-- result. The four reference-qualified overloads of an operation differ in what they move, not in
-- what they compute, and are one function here. A source location is not modelled.
pub mod Laws
use Prim.Native.String.{String}
use enocean_core.Base.{Bool, true, false, List, [], ◌∷◌}

pub data ErrorHandler {ℓ κ} (T : Type ℓ) (E : Type κ) : Type (ℓ ⊔ κ) where
  value : T → ErrorHandler T E
  error : E → ErrorHandler T E

-- The specialisation of `ErrorTraits` for an enumeration.
pub record ErrorTraits {κ} (E : Type κ) : Type κ where
  pub name : E → String

-- The error's name and the custom message.
abbrev pub LogLine : Type 0
LogLine = String × String

abbrev pub Logged {ℓ} : Type ℓ → Type ℓ
Logged A = A × List LogLine

module _ {ℓ κ} {T : Type ℓ} {E : Type κ} where
  -- The constructor from a value: nothing is logged.
  abbrev pub of_value : T → Logged (ErrorHandler T E)
  of_value v = (value v, [])

  -- The constructor from an error and a message.
  abbrev pub of_error : ⦃t : ErrorTraits E⦄ → E → String → Logged (ErrorHandler T E)
  of_error ⦃t⦄ e msg = (error e, (t.name e, msg) ∷ [])

  -- The constructor from `std::unexpected`, which has no message.
  abbrev pub of_unexpected : ⦃t : ErrorTraits E⦄ → E → Logged (ErrorHandler T E)
  of_unexpected ⦃t⦄ e = (error e, (t.name e, "") ∷ [])

  abbrev pub has_value : ErrorHandler T E → Bool
  has_value (value v) = true
  has_value (error e) = false

  pub value_or : ErrorHandler T E → T → T
  value_or (value v) d = v
  value_or (error e) d = d

  pub or_else :
      {G : Type κ} → ErrorHandler T E → (E → Logged (ErrorHandler T G)) → Logged (ErrorHandler T G)
  or_else (value v) f = (value v, [])
  or_else (error e) f = f e

  pub transform_error :
      {G : Type κ} ⦃t : ErrorTraits G⦄ → ErrorHandler T E → (E → G) → Logged (ErrorHandler T G)
  transform_error (value v) f = (value v, [])
  transform_error ⦃t⦄ (error e) f = (error (f e), (t.name (f e), "Error transformed") ∷ [])

module _ {ℓ ι κ} {T : Type ℓ} {U : Type ι} {E : Type κ} ⦃t : ErrorTraits E⦄ where
  -- An error is passed on by constructing it again, which logs it again.
  unfoldable pub and_then :
      ErrorHandler T E → (T → Logged (ErrorHandler U E)) → Logged (ErrorHandler U E)
  and_then (value v) f = f v
  and_then (error e) f = of_unexpected e

  unfoldable pub transform : ErrorHandler T E → (T → U) → Logged (ErrorHandler U E)
  transform (value v) f = (value (f v), [])
  transform (error e) f = of_unexpected e
