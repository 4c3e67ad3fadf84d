-- ===== src/Os/Discipline.antt =====
-- When calls of the operating system keep to the life of a resource: it is opened while it is not open,
-- and used and closed while it is.
use enocean_core.Base.{Bool, true, false, List, [], ◌∷◌, ◌≡◌}
use enocean_core.Os.{Os, Rc, success, failure}

-- What a call does with the resource. `closes` leaves it open if the call fails, `releases` does not.
pub data Role : Type 0 where
  opens closes releases uses neutral : Role

-- Whether the resource is open after a call, from whether it was before.
unfoldable pub after : Role → Rc → Bool → Bool
after opens success b = true
after opens (failure e) b = b
after closes success b = false
after closes (failure e) b = b
after releases rc b = false
after uses rc b = b
after neutral rc b = b

abbrev pub IsAllowed : Role → Bool → Type 0
IsAllowed opens b = b ≡ false
IsAllowed closes b = b ≡ true
IsAllowed releases b = b ≡ true
IsAllowed uses b = b ≡ true
IsAllowed neutral b = Unit {0}

module _ {Call : Type 0} where
  unfoldable pub is_open : (Call → Role) → Os Call → List Call → Bool
  is_open role os [] = false
  is_open role os (c ∷ calls) = after (role c) (os (c ∷ calls)) (is_open role os calls)

  -- Every call was allowed when it was made.
  abbrev pub IsOrderly : (Call → Role) → Os Call → List Call → Type 0
  IsOrderly role os [] = Unit {0}
  IsOrderly role os (c ∷ calls) =
      IsAllowed (role c) (is_open role os calls) × IsOrderly role os calls
