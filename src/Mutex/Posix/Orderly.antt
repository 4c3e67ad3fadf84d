-- ===== src/Mutex/Posix/Orderly.antt =====
-- Histories of a mutex (platform/posix_core/mutex/Mutex.cpp, platform/common/imutex/IMutex.hpp).
use enocean_core.Base.{
  ℕ, Bool, true, false, List, [], ◌∷◌, ◌≡◌, refl, arith, if◌then◌else◌, Bool-cases, inl, inr,
}
use enocean_core.ErrorHandler.{has_value}
use enocean_core.Os.{Rc, success, failure, Os}
use enocean_core.Os.Discipline.{
  Role, opens, closes, releases, uses, neutral, after, is_open, IsOrderly,
}
use enocean_core.Mutex.{construct, init, lock, unlock}
use enocean_core.Mutex.Posix.{
  Call, attr_init, attr_settype, attr_destroy, mutex_init, mutex_destroy, mutex_lock,
  mutex_timedlock, mutex_unlock, PosixMutex, conclude, init_with_attr, init_attr, init_fresh,
  init_again, do_init, do_lock, do_unlock,
}

-- What a call does with the mutex.
abbrev pub mutex_role : Call → Role
mutex_role mutex_init = opens
mutex_role mutex_destroy = closes
mutex_role (mutex_lock thread) = uses
mutex_role (mutex_timedlock thread) = uses
mutex_role (mutex_unlock thread) = uses
mutex_role _ = neutral

-- And with the attributes.
abbrev pub attr_role : Call → Role
attr_role attr_init = opens
attr_role attr_settype = uses
attr_role mutex_init = uses
attr_role attr_destroy = releases
attr_role _ = neutral

-- A call of the application. `inits_again` is a direct call of do_init.
pub data Op : Type 0 where
  inits inits_again : Op
  locks : ℕ → Bool → Op
  unlocks : ℕ → Op

abbrev whatever : {A : Type 0} → PosixMutex × A → PosixMutex × Bool
whatever r = (r.0, true)

-- The mutex, and whether the program goes on.
pub apply : Os Call → PosixMutex → Op → PosixMutex × Bool
apply os m inits = whatever (init (do_init os) m)
apply os m inits_again = whatever (do_init os m)
apply os m (locks thread timed) = whatever (lock (do_lock os thread timed) m)
apply os m (unlocks thread) = unlock (do_unlock os thread) m

pub run_ops : Os Call → PosixMutex → List Op → PosixMutex
run_ops os m [] = m
run_ops os m (op ∷ ops) =
    let applied = apply os m op in
    let rest = run_ops os applied.0 ops in if applied.1 then rest else applied.0

-- A mutex that was just initialised can be destroyed.
abbrev pub DestroysFresh : Os Call → Type 0
DestroysFresh os =
    (calls : List Call)
    → os (mutex_init ∷ calls) ≡ success
    → os (mutex_destroy ∷ attr_destroy ∷ mutex_init ∷ calls) ≡ success

record IsSound (os : Os Call) (m : PosixMutex) : Type 0 where
  mutexes : IsOrderly mutex_role os m.calls
  attrs : IsOrderly attr_role os m.calls
  flagged : is_open mutex_role os m.calls ≡ m.initialized
  freed : is_open attr_role os m.calls ≡ false

init_fresh-IsSound :
    (os : Os Call) (m : PosixMutex)
    → DestroysFresh os
    → m.initialized ≡ false
    → IsSound os m
    → IsSound os (init_fresh os m).0
unfolding init_fresh init_attr init_with_attr conclude is_open after
init_fresh-IsSound os m d idle h = record {
  mutexes = ground (arith, h.mutexes, h.flagged, d (attr_settype ∷ attr_init ∷ m.calls));
  attrs = ground (arith, h.attrs, h.freed, d (attr_settype ∷ attr_init ∷ m.calls));
  flagged = ground (arith, h.flagged, d (attr_settype ∷ attr_init ∷ m.calls));
  freed = ground (arith, h.freed, d (attr_settype ∷ attr_init ∷ m.calls));
}

init_again-IsSound :
    (os : Os Call) (m : PosixMutex) (rc : Rc)
    → DestroysFresh os
    → m.initialized ≡ true
    → os (mutex_destroy ∷ m.calls) ≡ rc
    → IsSound os m
    → IsSound os (init_again os rc (record m { calls = mutex_destroy ∷ m.calls })).0
unfolding init_again is_open after
init_again-IsSound os m success d on e h =
    init_fresh-IsSound os (record m { calls = mutex_destroy ∷ m.calls; initialized = false }) d refl
      (record {
        mutexes = ground (arith, h.mutexes, h.flagged);
        attrs = ground (arith, h.attrs);
        flagged = ground arith;
        freed = ground (arith, h.freed);
      })
init_again-IsSound os m (failure _) d on e h = record {
  mutexes = ground (arith, h.mutexes, h.flagged);
  attrs = ground (arith, h.attrs);
  flagged = ground (arith, h.flagged);
  freed = ground (arith, h.freed);
}

do_init_initialized :
    (os : Os Call) (m : PosixMutex)
    → m.initialized ≡ true
    → (do_init os m).0
      ≡ (init_again os
          (os (mutex_destroy ∷ m.calls))
          (record m { calls = mutex_destroy ∷ m.calls })).0
unfolding do_init
do_init_initialized os m on = ground arith

do_init-init_fresh :
    (os : Os Call) (m : PosixMutex) → m.initialized ≡ false → (do_init os m).0 ≡ (init_fresh os m).0
unfolding do_init
do_init-init_fresh os m off = ground arith

do_init-IsSound :
    (os : Os Call) (m : PosixMutex) → DestroysFresh os → IsSound os m → IsSound os (do_init os m).0
do_init-IsSound os m d h = elim (Bool-cases m.initialized) [
  | inl on ↦
      rw (do_init_initialized os m on)
        (init_again-IsSound os m (os (mutex_destroy ∷ m.calls)) d on refl h)
  | inr off ↦ rw (do_init-init_fresh os m off) (init_fresh-IsSound os m d off h)
]

-- The front sets the flag again, which do_init has set already.
init_fresh-initialized :
    (os : Os Call) (m : PosixMutex)
    → m.initialized ≡ false
    → (init_fresh os m).0.initialized ≡ has_value (init_fresh os m).1.0
unfolding init_fresh init_attr init_with_attr conclude
init_fresh-initialized os m off = ground arith

init-do_init :
    (os : Os Call) (m : PosixMutex)
    → m.initialized ≡ false
    → (init (do_init os) m).0 ≡ (init_fresh os m).0
unfolding init do_init
init-do_init os m off = ground (arith, init_fresh-initialized os m off)

init_initialized :
    (os : Os Call) (m : PosixMutex) → m.initialized ≡ true → (init (do_init os) m).0 ≡ m
unfolding init
init_initialized os m on = ground arith

do_lock-IsSound :
    (os : Os Call) (m : PosixMutex) (thread : ℕ) (timed : Bool)
    → IsSound os m
    → IsSound os (lock (do_lock os thread timed) m).0
unfolding lock do_lock is_open after
do_lock-IsSound os m thread timed h = record {
  mutexes = ground (arith, h.mutexes, h.flagged);
  attrs = ground (arith, h.attrs);
  flagged = ground (arith, h.flagged);
  freed = ground (arith, h.freed);
}

do_unlock-IsSound :
    (os : Os Call) (m : PosixMutex) (thread : ℕ)
    → IsSound os m
    → IsSound os (unlock (do_unlock os thread) m).0
unfolding unlock do_unlock is_open after
do_unlock-IsSound os m thread h = record {
  mutexes = ground (arith, h.mutexes, h.flagged);
  attrs = ground (arith, h.attrs);
  flagged = ground (arith, h.flagged);
  freed = ground (arith, h.freed);
}

apply-IsSound :
    (os : Os Call) (m : PosixMutex) (op : Op)
    → DestroysFresh os
    → IsSound os m
    → IsSound os (apply os m op).0
unfolding apply
apply-IsSound os m inits d h = elim (Bool-cases m.initialized) [
  | inl on ↦ rw (init_initialized os m on) h
  | inr off ↦ rw (init-do_init os m off) (init_fresh-IsSound os m d off h)
]
apply-IsSound os m inits_again d h = do_init-IsSound os m d h
apply-IsSound os m (locks thread timed) d h = do_lock-IsSound os m thread timed h
apply-IsSound os m (unlocks thread) d h = do_unlock-IsSound os m thread h

run_ops-IsSound :
    (os : Os Call) (m : PosixMutex) (ops : List Op)
    → DestroysFresh os
    → IsSound os m
    → IsSound os (run_ops os m ops)
unfolding run_ops
run_ops-IsSound os m [] d h = h
run_ops-IsSound os m (op ∷ ops) d h = elim (Bool-cases (apply os m op).1) [
  | inl on ↦ rw on (run_ops-IsSound os (apply os m op).0 ops d (apply-IsSound os m op d h))
  | inr off ↦ rw off (apply-IsSound os m op d h)
]

-- In every history of a POSIX mutex, whatever the calls of the system return, if only a mutex that was
-- just initialised can be destroyed: the pthread mutex is initialised only while it is not, it is
-- locked, unlocked and destroyed only while it is, the flag of the front says which, and the
-- attributes are used only between their initialisation and their destruction, which no operation
-- leaves out.
pub run_ops-IsOrderly :
    (os : Os Call) (name : List ℕ) (ops : List Op)
    → DestroysFresh os
    → IsOrderly mutex_role os (run_ops os (construct name) ops).calls
      × IsOrderly attr_role os (run_ops os (construct name) ops).calls
      × (is_open mutex_role os (run_ops os (construct name) ops).calls
          ≡ (run_ops os (construct name) ops).initialized)
      × (is_open attr_role os (run_ops os (construct name) ops).calls ≡ false)
unfolding construct is_open
run_ops-IsOrderly os name ops d =
    let h : IsSound os (run_ops os (construct name) ops) =
      run_ops-IsSound os (construct name) ops d
        (record { mutexes = tt; attrs = tt; flagged = refl; freed = refl }) in
    (h.mutexes, h.attrs, h.flagged, h.freed)
