-- ===== src/Thread/Posix/Orderly.antt =====
-- Histories of a thread object (platform/posix_core/thread/Thread.cpp and Thread.hpp,
-- platform/common/ithread/IThread.hpp).
use enocean_core.Base.{
  ℕ, Bool, true, false, not, List, [], ◌∷◌, ◌≡◌, refl, arith, if◌then◌else◌, if_cases, Option, some,
  none, ◌||◌,
}
use enocean_core.Base.Int.{ℤ}
use enocean_core.ErrorHandler.{has_value}
use enocean_core.Os.{Os}
use enocean_core.Os.Discipline.{is_open, IsOrderly}
use enocean_core.Thread.{
  ThreadParamVariant, ThreadFunctionVariant, ThreadStackInfo, Result, construct, create,
  conclude_destroy, destroy,
}
use enocean_core.Thread.Posix.{Call, Pthread, PosixThread, os_create_with, os_create, os_destroy}
use enocean_core.Thread.Posix.Attempts.{thread_role, attr_role, IsIdle}
use enocean_core.Thread.Posix.Made.{
  IsSound, IsMade, IsJoined, os_create-IsMade, os_create_with-IsMade, os_destroy-IsJoined,
}

abbrev returned : Option Result → Bool
returned none = false
returned (some result) = true

-- A call of the application; `creates` without parameters is the other overload.
pub data Op : Type 0 where
  creates : ThreadFunctionVariant → ThreadStackInfo → ℤ → Option ThreadParamVariant → Op
  destroys : ℕ → Op

unfoldable pub create_op :
    Pthread
    → ThreadFunctionVariant
    → ThreadStackInfo
    → ℤ
    → Option ThreadParamVariant
    → PosixThread
    → PosixThread × Result
create_op p function info priority none t =
    create (os_create p function info.stack_size priority) info priority t
create_op p function info priority (some params) t =
    create (os_create_with p function info.stack_size priority params) info priority t

-- The thread object, and whether the call returns.
unfoldable pub apply : Pthread → PosixThread → Op → PosixThread × Bool
unfolding create_op
apply p t (creates function info priority params) =
    ((create_op p function info priority params t).0, true)
apply p t (destroys fuel) =
    let (t', outcome) = destroy (os_destroy p.os fuel) t in (t', returned outcome)

unfoldable pub run_ops : Pthread → PosixThread → List Op → PosixThread
unfolding apply
run_ops p t [] = t
run_ops p t (op ∷ ops) =
    let applied = apply p t op in
    let rest = run_ops p applied.0 ops in if applied.1 then rest else applied.0

create-IsSound :
    (os : Os Call) (make : PosixThread → PosixThread × Result) (info : ThreadStackInfo)
    (priority : ℤ) (t : PosixThread)
    → ((u : PosixThread) → IsIdle os u → IsMade os (make u))
    → IsSound os t
    → IsSound os (create make info priority t).0
unfolding create
create-IsSound os make info priority t makes h =
    if_cases {A = PosixThread × Result} (λ r. IsSound os r.0) t.active (λ on. h)
      (λ off. flag (
        makes _ (record {
          threads = h.threads;
          attrs = h.attrs;
          idle = ground (arith, h.flagged, off);
          freed = h.freed;
          off = off;
        })))
  where
    flag :
        {r : PosixThread × Result}
        → IsMade os r
        → IsSound os (record r.0 { active = r.0.active || has_value r.1.0 })
    flag m = record {
      threads = m.sound.threads;
      attrs = m.sound.attrs;
      flagged = ground (arith, m.sound.flagged, m.told);
      freed = m.sound.freed;
    }

conclude_destroy-IsSound :
    (os : Os Call) (t : PosixThread) (outcome : Option Result)
    → IsJoined os (t, outcome)
    → IsSound os (conclude_destroy t outcome).0
unfolding conclude_destroy
conclude_destroy-IsSound os t none h = h.sound
conclude_destroy-IsSound os t (some result) h = record {
  threads = h.sound.threads;
  attrs = h.sound.attrs;
  flagged = ground (arith, h.sound.flagged, h.told);
  freed = h.sound.freed;
}

destroy-IsSound :
    (os : Os Call) (fuel : ℕ) (t : PosixThread)
    → IsSound os t
    → IsSound os (destroy (os_destroy os fuel) t).0
unfolding destroy
destroy-IsSound os fuel t h =
    if_cases {A = PosixThread × Option Result} (λ r. IsSound os r.0) (not t.active) (λ off. h)
      (λ on. conclude_destroy-IsSound os _ _ (os_destroy-IsJoined os fuel t (ground (arith, on)) h))

apply-IsSound :
    (p : Pthread) (t : PosixThread) (op : Op) → IsSound p.os t → IsSound p.os (apply p t op).0
unfolding apply create_op
apply-IsSound p t (creates function info priority none) h =
    create-IsSound p.os _ info priority t
      (λ u i. os_create-IsMade p function info.stack_size priority u i) h
apply-IsSound p t (creates function info priority (some params)) h =
    create-IsSound p.os _ info priority t
      (λ u i. os_create_with-IsMade p function info.stack_size priority params u i) h
apply-IsSound p t (destroys fuel) h = destroy-IsSound p.os fuel t h

run_ops-IsSound :
    (p : Pthread) (t : PosixThread) (ops : List Op)
    → IsSound p.os t
    → IsSound p.os (run_ops p t ops)
unfolding run_ops
run_ops-IsSound p t [] h = h
run_ops-IsSound p t (op ∷ ops) h =
    let k = apply-IsSound p t op h in
    if_cases (λ u. IsSound p.os u) (apply p t op).1 (λ on. run_ops-IsSound p (apply p t op).0 ops k)
      (λ off. k)

-- In every history of a POSIX thread object, whatever the calls of the system return: a thread is created
-- only while the object has none and joined only while it has one, the object says `active` exactly
-- while it has one, and the attributes are used only between their initialisation and their
-- destruction, which no operation leaves out.
pub run_ops-active :
    (p : Pthread) (name : List ℕ) (ops : List Op)
    → IsOrderly thread_role p.os (run_ops p (construct name 0) ops).calls
      × IsOrderly attr_role p.os (run_ops p (construct name 0) ops).calls
      × (is_open thread_role p.os (run_ops p (construct name 0) ops).calls
          ≡ (run_ops p (construct name 0) ops).active)
      × (is_open attr_role p.os (run_ops p (construct name 0) ops).calls ≡ false)
unfolding construct is_open
run_ops-active p name ops =
    let h =
      run_ops-IsSound p (construct name 0) ops
        (record { threads = tt; attrs = tt; flagged = refl; freed = refl }) in
    (h.threads, h.attrs, h.flagged, h.freed)
