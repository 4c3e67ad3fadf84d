-- ===== src/Semaphore/Posix/Orderly.antt =====
-- Histories of a semaphore (platform/posix_core/semaphore/Semaphore.cpp,
-- platform/common/isemaphore/ISemaphore.hpp).
use enocean_core.Base.{
  ℕ, Bool, true, false, List, [], ◌∷◌, ◌≡◌, refl, arith, if◌then◌else◌, Bool-cases, inl, inr,
}
use enocean_core.Os.{success, Os}
use enocean_core.Os.Discipline.{Role, opens, closes, uses, after, is_open, IsOrderly}
use enocean_core.Semaphore.{construct, init, take, give}
use enocean_core.Semaphore.Posix.{
  Call, sem_init, sem_destroy, PosixSemaphore, conclude, init_fresh, init_again, do_init, do_take,
  do_give, destruct,
}

abbrev pub sem_role : Call → Role
sem_role (sem_init n) = opens
sem_role sem_destroy = closes
sem_role _ = uses

-- A call of the application. `inits_again` is a direct call of do_init.
pub data Op : Type 0 where
  inits inits_again gives : Op
  takes : Bool → Op

abbrev whatever : {A : Type 0} → PosixSemaphore × A → PosixSemaphore × Bool
whatever r = (r.0, true)

-- The semaphore, and whether the program goes on.
unfoldable pub apply : Os Call → PosixSemaphore → Op → PosixSemaphore × Bool
apply os s inits = whatever (init (do_init os) s)
apply os s inits_again = whatever (do_init os s)
apply os s (takes timed) = whatever (take (do_take os timed) s)
apply os s gives = give (do_give os) s

unfoldable pub run_ops : Os Call → PosixSemaphore → List Op → PosixSemaphore
unfolding apply
run_ops os s [] = s
run_ops os s (op ∷ ops) =
    let applied = apply os s op in
    let rest = run_ops os applied.0 ops in if applied.1 then rest else applied.0

record IsSound (os : Os Call) (s : PosixSemaphore) : Type 0 where
  orderly : IsOrderly sem_role os s.calls
  flagged : is_open sem_role os s.calls ≡ s.initialized

apply-IsSound :
    (os : Os Call) (s : PosixSemaphore) (op : Op) → IsSound os s → IsSound os (apply os s op).0
unfolding apply init take give do_init init_fresh init_again conclude do_take do_give is_open after
apply-IsSound os s inits h = record {
  orderly = ground (arith, h.orderly, h.flagged);
  flagged = ground (arith, h.flagged);
}
apply-IsSound os s inits_again h = record {
  orderly = ground (arith, h.orderly, h.flagged);
  flagged = ground (arith, h.flagged);
}
apply-IsSound os s (takes timed) h = record {
  orderly = ground (arith, h.orderly, h.flagged);
  flagged = ground (arith, h.flagged);
}
apply-IsSound os s gives h = record {
  orderly = ground (arith, h.orderly, h.flagged);
  flagged = ground (arith, h.flagged);
}

run_ops-IsSound :
    (os : Os Call) (s : PosixSemaphore) (ops : List Op)
    → IsSound os s
    → IsSound os (run_ops os s ops)
unfolding run_ops
run_ops-IsSound os s [] h = h
run_ops-IsSound os s (op ∷ ops) h = elim (Bool-cases (apply os s op).1) [
  | inl on ↦ rw on (run_ops-IsSound os (apply os s op).0 ops (apply-IsSound os s op h))
  | inr off ↦ rw off (apply-IsSound os s op h)
]

destruct-IsOrderly :
    (os : Os Call) (s : PosixSemaphore)
    → IsSound os s
    → ((calls : List Call) → os (sem_destroy ∷ calls) ≡ success)
    → IsOrderly sem_role os (destruct os s).calls
      × (is_open sem_role os (destruct os s).calls ≡ false)
unfolding destruct is_open after
destruct-IsOrderly os s h d =
    (ground (arith, h.orderly, h.flagged), ground (arith, h.flagged, d s.calls))

-- Whatever history a POSIX semaphore had before it is destroyed, and whatever the calls of the system
-- return but for sem_destroy, which succeeds: the semaphore of the system is initialised only while it
-- is not, waited for, posted and destroyed only while it is, and none is left behind.
pub destruct-run_ops :
    (os : Os Call) (name : List ℕ) (initial_count max_limit : ℕ) (ops : List Op)
    → ((calls : List Call) → os (sem_destroy ∷ calls) ≡ success)
    → IsOrderly sem_role os
        (destruct os (run_ops os (construct name initial_count max_limit) ops)).calls
      × (is_open sem_role os
            (destruct os (run_ops os (construct name initial_count max_limit) ops)).calls
          ≡ false)
unfolding construct is_open
destruct-run_ops os name initial_count max_limit ops d =
    destruct-IsOrderly os (run_ops os (construct name initial_count max_limit) ops)
      (run_ops-IsSound os (construct name initial_count max_limit) ops
        (record { orderly = tt; flagged = refl }))
      d
