-- ===== src/ErrorHandler/Laws.antt =====
-- Laws of the monadic operations of include/error_handler/ErrorHandler.hpp, and what they log.
use enocean_core.Base.{◌≡◌, refl, ◌∙◌, ap, List, [], ◌∷◌, ◌++◌, length, replicate}
use mathlib.Core.List.{append_assoc}
use enocean_core.ErrorHandler.{
  ErrorHandler, ErrorTraits, LogLine, Logged, of_value, and_then, transform,
}

module _ {ℓ κ} {T : Type ℓ} {E : Type κ} ⦃t : ErrorTraits E⦄ where
  -- `r.and_then(f1).and_then(f2)...`, with everything that it logs.
  pub chain :
      Logged (ErrorHandler T E) → List (T → Logged (ErrorHandler T E)) → Logged (ErrorHandler T E)
  chain r [] = r
  chain r (f ∷ fs) = let next = and_then r.0 f in chain (next.0, r.1 ++ next.1) fs

  -- A chain of steps that starts with an error runs none of them and keeps the error, and every step
  -- logs the error once more, without a message.
  pub chain-error :
      (fs : List (T → Logged (ErrorHandler T E))) (e : E) (log : List LogLine)
      → chain (ErrorHandler.error e, log) fs
        ≡ (ErrorHandler.error e, log ++ replicate (length fs) (t.name e, ""))
  unfolding chain and_then
  chain-error [] e log = ap (λ l. (ErrorHandler.error e, l)) (nil log)
    where
      nil : (l : List LogLine) → l ≡ l ++ []
      nil [] = refl
      nil (x ∷ l) = ap (◌∷◌ x) (nil l)
  chain-error (f ∷ fs) e log =
      chain-error fs e (log ++ ((t.name e, "") ∷ []))
      ∙ ap (λ l. (ErrorHandler.error e, l))
          (append_assoc log ((t.name e, "") ∷ []) (replicate (length fs) (t.name e, "")))

module _ {ℓ ι ν κ} {T : Type ℓ} {U : Type ι} {V : Type ν} {E : Type κ} ⦃t : ErrorTraits E⦄ where
  -- Two steps in a row give the same result as one step that does both.
  pub and_then-and_then :
      (r : ErrorHandler T E) (f : T → Logged (ErrorHandler U E)) (g : U → Logged (ErrorHandler V E))
      → (and_then (and_then r f).0 g).0 ≡ (and_then r (λ x. and_then (f x).0 g)).0
  unfolding and_then
  and_then-and_then (ErrorHandler.value v) f g = refl
  and_then-and_then (ErrorHandler.error e) f g = refl

module _ {ℓ ι κ} {T : Type ℓ} {U : Type ι} {E : Type κ} ⦃t : ErrorTraits E⦄ where
  -- `transform` is `and_then` with a step that cannot fail, in its result and in what it logs.
  pub transform-and_then :
      (r : ErrorHandler T E) (f : T → U) → transform r f ≡ and_then r (λ x. of_value (f x))
  unfolding transform and_then
  transform-and_then (ErrorHandler.value v) f = refl
  transform-and_then (ErrorHandler.error e) f = refl
