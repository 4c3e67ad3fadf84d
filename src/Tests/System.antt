-- ===== src/Tests/System.antt =====
-- Mutexes, semaphores and their limits on concrete inputs.
use enocean_core.Base.{ℕ, ◌≡◌, refl, false, true, List, [], ◌∷◌}
use enocean_core.Os.{success, Os}
use enocean_core.Os.Discipline.{is_open, IsOrderly}
use enocean_core.Mutex
use enocean_core.Mutex.Posix.{PosixMutex}
use enocean_core.Mutex.Posix.Orderly.{mutex_role, attr_role, run_ops-IsOrderly}
use enocean_core.Mutex.Posix.Orderly
use enocean_core.Semaphore
use enocean_core.Semaphore.Posix.{PosixSemaphore, destruct}
use enocean_core.Semaphore.Posix.Orderly.{
  inits, inits_again, gives, takes, sem_role, run_ops, destruct-run_ops,
}
use enocean_core.Semaphore.Posix.Limit.{run_ops-construct}

-- A system in which every call succeeds.
abbrev pub always : {Call : Type 0} → Os Call
always _ = success

abbrev pub led_name : List ℕ
led_name = b'L' ∷ b'E' ∷ b'D' ∷ []

abbrev a_mutex : PosixMutex
a_mutex =
    Orderly.run_ops always (Mutex.construct led_name)
      (Orderly.inits ∷ Orderly.locks 0 false ∷ Orderly.unlocks 0 ∷ Orderly.inits_again ∷ [])

run_ops-IsOrderly_example :
    IsOrderly mutex_role always a_mutex.calls
    × IsOrderly attr_role always a_mutex.calls
    × (is_open mutex_role always a_mutex.calls ≡ a_mutex.initialized)
    × (is_open attr_role always a_mutex.calls ≡ false)
run_ops-IsOrderly_example =
    run_ops-IsOrderly always led_name
      (Orderly.inits ∷ Orderly.locks 0 false ∷ Orderly.unlocks 0 ∷ Orderly.inits_again ∷ [])
      (λ calls e. refl)

abbrev a_semaphore : PosixSemaphore
a_semaphore = destruct always (
    run_ops always (Semaphore.construct led_name 1 1)
      (inits ∷ takes true ∷ gives ∷ inits_again ∷ gives ∷ []))

destruct-run_ops_example :
    IsOrderly sem_role always a_semaphore.calls
    × (is_open sem_role always a_semaphore.calls ≡ false)
destruct-run_ops_example =
    destruct-run_ops always led_name 1 1 (inits ∷ takes true ∷ gives ∷ inits_again ∷ gives ∷ [])
      (λ calls. refl)

run_ops-construct_example :
    run_ops always (Semaphore.construct led_name 1 1) (inits ∷ gives ∷ gives ∷ [])
    ≡ record (run_ops always (Semaphore.construct led_name 1 5) (inits ∷ gives ∷ gives ∷ [])) {
      count_limit = 1;
    }
run_ops-construct_example = run_ops-construct always led_name 1 1 5 (inits ∷ gives ∷ gives ∷ [])
