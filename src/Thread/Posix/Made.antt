-- ===== src/Thread/Posix/Made.antt =====
-- What os_create and os_destroy (platform/posix_core/thread/Thread.cpp) leave.
use Prim.Native.String.{String}
use enocean_core.Base.{
  ℕ, zero, suc, Bool, true, false, not, ◌∷◌, ◌≡◌, refl, arith, Bool-cases, inl, inr, Option, some,
  none, ◌&&◌,
}
use enocean_core.Base.Int.{ℤ}
use enocean_core.ErrorHandler.{has_value}
use enocean_core.Os.{Rc, success, failure, Os}
use enocean_core.Os.Discipline.{after, is_open, IsOrderly}
use enocean_core.Thread.{
  ThreadParamVariant, param1, param2, param3, param_value, ThreadFunctionVariant, Result,
}
use enocean_core.Thread.Posix.{
  Call, thread_join, Pthread, PosixThread, is_eperm, is_eintr, is_nonnegative, attempt_create,
  conclude, attempt_twice, os_create_with, os_create, conclude_join, os_destroy,
}
use enocean_core.Thread.Posix.Attempts.{
  thread_role, attr_role, IsIdle, IsTried, attempt_create-IsTried,
}

-- Between the operations.
pub record IsSound (os : Os Call) (t : PosixThread) : Type 0 where
  pub threads : IsOrderly thread_role os t.calls
  pub attrs : IsOrderly attr_role os t.calls
  pub flagged : is_open thread_role os t.calls ≡ t.active
  pub freed : is_open attr_role os t.calls ≡ false

-- After os_create, with its result: the thread object says whether there is a thread.
pub record IsMade (os : Os Call) (r : PosixThread × Result) : Type 0 where
  pub sound : IsSound os r.0
  pub told : r.0.active ≡ has_value r.1.0

conclude-IsMade :
    (os : Os Call) (msg : String) (rc : Rc) (t : PosixThread)
    → IsTried os rc t
    → IsMade os (conclude msg rc t)
unfolding conclude
conclude-IsMade os msg success t h = record {
  sound = record { threads = h.threads; attrs = h.attrs; flagged = h.made; freed = h.freed };
  told = refl;
}
conclude-IsMade os msg (failure e) t h = record {
  sound = record {
    threads = h.threads;
    attrs = h.attrs;
    flagged = ground (arith, h.made, h.off);
    freed = h.freed;
  };
  told = h.off;
}

-- A failed attempt may be followed by another.
failed-IsIdle :
    (os : Os Call) (rc : Rc) (t : PosixThread) → is_eperm rc ≡ true → IsTried os rc t → IsIdle os t
failed-IsIdle os rc t e h = record {
  threads = h.threads;
  attrs = h.attrs;
  idle = ground (arith, h.made, e);
  freed = h.freed;
  off = h.off;
}

attempt_twice-IsMade :
    (p : Pthread) (function : ThreadFunctionVariant) (size : ℕ) (priority : ℤ) (param : ℕ)
    (t : PosixThread)
    → IsIdle p.os t
    → IsMade p.os (attempt_twice p function size priority param t)
unfolding attempt_twice
attempt_twice-IsMade p function size priority param t h =
    elim (Bool-cases (is_eperm first.1 && is_nonnegative priority)) [
      | inl again ↦ rw again (
          conclude-IsMade p.os "pthread_create failed" _ _ (
            attempt_create-IsTried p function size priority param true first.0
              (failed-IsIdle p.os first.1 first.0 (ground arith) tried)))
      | inr over ↦ rw over (conclude-IsMade p.os "pthread_create failed" _ _ tried)
    ]
  where
    first : PosixThread × Rc
    first = attempt_create p function size priority param false t

    tried : IsTried p.os first.1 first.0
    tried = attempt_create-IsTried p function size priority param false t h

pub os_create-IsMade :
    (p : Pthread) (function : ThreadFunctionVariant) (requested : ℕ) (priority : ℤ)
    (t : PosixThread)
    → IsIdle p.os t
    → IsMade p.os (os_create p function requested priority t)
unfolding os_create
os_create-IsMade p function requested priority t h =
    attempt_twice-IsMade p function _ priority 0 _
      (record { threads = h.threads; attrs = h.attrs; idle = h.idle; freed = h.freed; off = h.off })

pub os_create_with-IsMade :
    (p : Pthread) (function : ThreadFunctionVariant) (requested : ℕ) (priority : ℤ)
    (params : ThreadParamVariant) (t : PosixThread)
    → IsIdle p.os t
    → IsMade p.os (os_create_with p function requested priority params t)
unfolding os_create_with
os_create_with-IsMade p function requested priority (param_value v) t h =
    attempt_twice-IsMade p function _ priority v _
      (record { threads = h.threads; attrs = h.attrs; idle = h.idle; freed = h.freed; off = h.off })
os_create_with-IsMade p function requested priority (param1 a) t h =
    attempt_twice-IsMade p function _ priority a _
      (record { threads = h.threads; attrs = h.attrs; idle = h.idle; freed = h.freed; off = h.off })
os_create_with-IsMade p function requested priority (param2 a b) t h = record {
  sound = record {
    threads = h.threads;
    attrs = h.attrs;
    flagged = ground (arith, h.idle, h.off);
    freed = h.freed;
  };
  told = h.off;
}
os_create_with-IsMade p function requested priority (param3 a b c) t h = record {
  sound = record {
    threads = h.threads;
    attrs = h.attrs;
    flagged = ground (arith, h.idle, h.off);
    freed = h.freed;
  };
  told = h.off;
}

abbrev pub TellsJoined : Bool → Option Result → Type 0
TellsJoined active none = Unit {0}
TellsJoined active (some result) = active ≡ not (has_value result.0)

-- What os_destroy leaves, with its result.
pub record IsJoined (os : Os Call) (r : PosixThread × Option Result) : Type 0 where
  pub sound : IsSound os r.0
  pub told : TellsJoined r.0.active r.1

conclude_join-IsJoined :
    (os : Os Call) (rc : Rc) (t : PosixThread)
    → os (thread_join ∷ t.calls) ≡ rc
    → t.active ≡ true
    → IsSound os t
    → IsJoined os (conclude_join (some rc) (record t { calls = thread_join ∷ t.calls }))
unfolding conclude_join is_open after
conclude_join-IsJoined os success t e on h = record {
  sound = record {
    threads = ground (arith, h.threads, h.flagged);
    attrs = ground (arith, h.attrs);
    flagged = ground (arith, e);
    freed = ground (arith, h.freed);
  };
  told = refl;
}
conclude_join-IsJoined os (failure _) t e on h = record {
  sound = record {
    threads = ground (arith, h.threads, h.flagged);
    attrs = ground (arith, h.attrs);
    flagged = ground (arith, e, h.flagged);
    freed = ground (arith, h.freed);
  };
  told = on;
}

-- An interrupted join changes nothing.
interrupted-IsSound :
    (os : Os Call) (t : PosixThread)
    → is_eintr (os (thread_join ∷ t.calls)) ≡ true
    → t.active ≡ true
    → IsSound os t
    → IsSound os (record t { calls = thread_join ∷ t.calls })
unfolding is_open after
interrupted-IsSound os t e on h = record {
  threads = ground (arith, h.threads, h.flagged);
  attrs = ground (arith, h.attrs);
  flagged = ground (arith, e, h.flagged);
  freed = ground (arith, h.freed);
}

pub os_destroy-IsJoined :
    (os : Os Call) (fuel : ℕ) (t : PosixThread)
    → t.active ≡ true
    → IsSound os t
    → IsJoined os (os_destroy os fuel t)
unfolding os_destroy
os_destroy-IsJoined os zero t on h = record { sound = h; told = tt }
os_destroy-IsJoined os (suc fuel) t on h =
    elim (Bool-cases (is_eintr (os (thread_join ∷ t.calls)))) [
      | inl again ↦ rw again (
          os_destroy-IsJoined os fuel (record t { calls = thread_join ∷ t.calls }) on
            (interrupted-IsSound os t again on h))
      | inr over ↦ rw over (conclude_join-IsJoined os _ t refl on h)
    ]
