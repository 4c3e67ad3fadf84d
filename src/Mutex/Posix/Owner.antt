-- ===== src/Mutex/Posix/Owner.antt =====
-- Who holds a POSIX mutex of type PTHREAD_MUTEX_ERRORCHECK, told from the calls.
use enocean_core.Base.{ℕ, List, [], ◌∷◌, Option, some, none, ◌≡◌}
use enocean_core.Os.{Rc, success, Os}
use enocean_core.Mutex.Posix.{Call, mutex_init, mutex_lock, mutex_timedlock, mutex_unlock}

-- The owner after a call, from what it returned and the owner before.
unfoldable pub owner_after : Call → Rc → Option ℕ → Option ℕ
owner_after mutex_init success before = none
owner_after (mutex_lock thread) success before = some thread
owner_after (mutex_timedlock thread) success before = some thread
owner_after (mutex_unlock thread) success before = none
owner_after _ _ before = before

unfoldable pub owner : Os Call → List Call → Option ℕ
unfolding owner_after
owner os [] = none
owner os (c ∷ calls) = owner_after c (os (c ∷ calls)) (owner os calls)

-- What POSIX says of such a mutex: one that is held is not locked again, and its owner can unlock it.
pub record IsErrorChecking (os : Os Call) : Type 0 where
  pub locks :
      (thread : ℕ) (calls : List Call)
      → os (mutex_lock thread ∷ calls) ≡ success
      → owner os calls ≡ none
  pub unlocks :
      (thread : ℕ) (calls : List Call)
      → owner os calls ≡ some thread
      → os (mutex_unlock thread ∷ calls) ≡ success
