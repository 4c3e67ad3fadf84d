-- ===== src/Thread/Posix/Attempts.antt =====
-- Attempts to create a thread (platform/posix_core/thread/Thread.cpp): the attributes and the thread.
use enocean_core.Base.{ℕ, Bool, true, false, ◌∷◌, ◌≡◌, refl, arith, if◌then◌else◌}
use enocean_core.Base.Int.{ℤ, pos, negsuc}
use enocean_core.Os.{Rc, success, failure, is_success, Os}
use enocean_core.Os.Discipline.{
  Role, opens, closes, releases, uses, neutral, after, is_open, IsOrderly,
}
use enocean_core.Thread.{ThreadFunctionVariant, function1, function2, function3}
use enocean_core.Thread.Posix.{
  Call, attr_init, attr_destroy, thread_join, attr_setinheritsched, thread_create, inherit_sched,
  clamp, Pthread, PosixThread, set_schedule, inherit_schedule, configure_priority, start,
  schedule_and_start, attempt_with_attr, attempt_create,
}

-- What a call does with the thread.
abbrev pub thread_role : Call → Role
thread_role (thread_create f param) = opens
thread_role thread_join = closes
thread_role _ = neutral

-- And with the attributes.
abbrev pub attr_role : Call → Role
attr_role attr_init = opens
attr_role attr_destroy = releases
attr_role thread_join = neutral
attr_role _ = uses

-- Inside an attempt: the attributes are there, the thread is not.
pub record IsReady (os : Os Call) (t : PosixThread) : Type 0 where
  pub threads : IsOrderly thread_role os t.calls
  pub attrs : IsOrderly attr_role os t.calls
  pub idle : is_open thread_role os t.calls ≡ false
  pub held : is_open attr_role os t.calls ≡ true
  pub off : t.active ≡ false

-- After an attempt with that result.
pub record IsTried (os : Os Call) (rc : Rc) (t : PosixThread) : Type 0 where
  pub threads : IsOrderly thread_role os t.calls
  pub attrs : IsOrderly attr_role os t.calls
  pub made : is_open thread_role os t.calls ≡ is_success rc
  pub freed : is_open attr_role os t.calls ≡ false
  pub off : t.active ≡ false

-- Where no attempt is under way and there is no thread.
pub record IsIdle (os : Os Call) (t : PosixThread) : Type 0 where
  pub threads : IsOrderly thread_role os t.calls
  pub attrs : IsOrderly attr_role os t.calls
  pub idle : is_open thread_role os t.calls ≡ false
  pub freed : is_open attr_role os t.calls ≡ false
  pub off : t.active ≡ false

inherit_schedule-IsReady :
    (os : Os Call) (t : PosixThread) → IsReady os t → IsReady os (inherit_schedule os t)
unfolding inherit_schedule is_open after
inherit_schedule-IsReady os t h = record {
  threads = ground (arith, h.threads);
  attrs = ground (arith, h.attrs, h.held);
  idle = ground (arith, h.idle);
  held = ground (arith, h.held);
  off = h.off;
}

set_schedule-IsReady :
    (os : Os Call) (clamped : ℤ) (t : PosixThread)
    → IsReady os t
    → IsReady os (set_schedule os clamped t).0
unfolding set_schedule is_open after
set_schedule-IsReady os clamped t h = record {
  threads = ground (arith, h.threads);
  attrs = ground (arith, h.attrs, h.held);
  idle = ground (arith, h.idle);
  held = ground (arith, h.held);
  off = ground (arith, h.off);
}

start-IsTried :
    (os : Os Call) (function : ThreadFunctionVariant) (param : ℕ) (t : PosixThread)
    → IsReady os t
    → IsTried os (start os function param t).1 (start os function param t).0
unfolding start is_open after
start-IsTried os (function1 f) param t h = record {
  threads = ground (arith, h.threads, h.idle);
  attrs = ground (arith, h.attrs, h.held);
  made = ground (arith, h.idle);
  freed = ground (arith, h.held);
  off = h.off;
}
start-IsTried os (function2 f) param t h = record {
  threads = ground (arith, h.threads);
  attrs = ground (arith, h.attrs, h.held);
  made = ground (arith, h.idle);
  freed = ground (arith, h.held);
  off = h.off;
}
start-IsTried os (function3 f) param t h = record {
  threads = ground (arith, h.threads);
  attrs = ground (arith, h.attrs, h.held);
  made = ground (arith, h.idle);
  freed = ground (arith, h.held);
  off = h.off;
}

pick-IsReady :
    (os : Os Call) (b : Bool) (t u : PosixThread)
    → IsReady os t
    → IsReady os u
    → IsReady os (if b then t else u)
pick-IsReady os true t u h k = h
pick-IsReady os false t u h k = k

inherit-IsReady :
    (os : Os Call) (t : PosixThread)
    → IsReady os t
    → IsReady os (record t { calls = attr_setinheritsched inherit_sched ∷ t.calls })
unfolding is_open after
inherit-IsReady os t h = record {
  threads = ground (arith, h.threads);
  attrs = ground (arith, h.attrs, h.held);
  idle = ground (arith, h.idle);
  held = ground (arith, h.held);
  off = h.off;
}

configure_priority-IsReady :
    (p : Pthread) (priority : ℤ) (t : PosixThread)
    → IsReady p.os t
    → IsReady p.os (configure_priority p priority t)
unfolding configure_priority
configure_priority-IsReady p (negsuc n) t h = inherit-IsReady p.os t h
configure_priority-IsReady p (pos n) t h =
    let ready = set_schedule-IsReady p.os (clamp (pos n) p.priority_min p.priority_max) t h in
    let (set, ok) = set_schedule p.os (clamp (pos n) p.priority_min p.priority_max) t in
    pick-IsReady p.os _ _ _ (inherit-IsReady p.os t h)
      (pick-IsReady p.os _ _ _ ready (inherit_schedule-IsReady p.os _ ready))

schedule_and_start-IsTried :
    (p : Pthread) (function : ThreadFunctionVariant) (priority : ℤ) (param : ℕ) (force : Bool)
    (rc : Rc) (t : PosixThread)
    → IsReady p.os t
    → IsTried p.os
        (schedule_and_start p function priority param force rc t).1
        (schedule_and_start p function priority param force rc t).0
unfolding schedule_and_start is_open after
schedule_and_start-IsTried p function priority param force (failure e) t h = record {
  threads = ground (arith, h.threads);
  attrs = ground (arith, h.attrs, h.held);
  made = ground (arith, h.idle);
  freed = ground (arith, h.held);
  off = h.off;
}
schedule_and_start-IsTried p function priority param force success t h =
    start-IsTried p.os function param _ (
      pick-IsReady p.os force _ _ (inherit_schedule-IsReady p.os t h)
        (configure_priority-IsReady p priority t h))

attempt_with_attr-IsTried :
    (p : Pthread) (function : ThreadFunctionVariant) (size : ℕ) (priority : ℤ) (param : ℕ)
    (force : Bool) (rc : Rc) (t : PosixThread)
    → p.os (attr_init ∷ t.calls) ≡ rc
    → IsIdle p.os t
    → let tried =
        attempt_with_attr p function size priority param force rc
          (record t { calls = attr_init ∷ t.calls }) in
      IsTried p.os tried.1 tried.0
unfolding attempt_with_attr is_open after
attempt_with_attr-IsTried p function size priority param force (failure e) t init h = record {
  threads = ground (arith, h.threads);
  attrs = ground (arith, h.attrs, h.freed);
  made = ground (arith, h.idle);
  freed = ground (arith, h.freed, init);
  off = h.off;
}
attempt_with_attr-IsTried p function size priority param force success t init h =
    schedule_and_start-IsTried p function priority param force _ _ (record {
      threads = ground (arith, h.threads);
      attrs = ground (arith, h.attrs, h.freed, init);
      idle = ground (arith, h.idle);
      held = ground (arith, init);
      off = h.off;
    })

pub attempt_create-IsTried :
    (p : Pthread) (function : ThreadFunctionVariant) (size : ℕ) (priority : ℤ) (param : ℕ)
    (force : Bool) (t : PosixThread)
    → IsIdle p.os t
    → let tried = attempt_create p function size priority param force t in
      IsTried p.os tried.1 tried.0
unfolding attempt_create
attempt_create-IsTried p function size priority param force t h =
    attempt_with_attr-IsTried p function size priority param force _ t refl h
