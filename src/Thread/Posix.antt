-- ===== src/Thread/Posix.antt =====
-- platform/posix_core/thread/Thread.cpp, over any behaviour of the pthread calls, on a machine with
-- words of 64 bits. The loop of os_destroy takes fuel.
pub mod Stack
pub mod Attempts
pub mod Made
pub mod Orderly
pub mod Join
use Prim.Native.String.{String}
use enocean_core.Base.{
  ℕ, zero, suc, ◌+◌, ◌*◌, ◌/◌, ◌%◌, ◌^◌, max, Bool, true, false, ◌&&◌, ◌∷◌, Option, some, none, ltb,
  ◌==◌, if◌then◌else◌,
}
use enocean_core.Base.Int.{ℤ, pos, negsuc}
use enocean_core.ErrorHandler.{ErrorHandler, of_value, of_error}
use enocean_core.Errors.Thread.{ThreadError}
use enocean_core.Errors.Thread
use enocean_core.Os.{
  Errno, einval, enomem, eagain, eperm, esrch, edeadlk, eintr, ealready, Rc, success, failure,
  is_success, Os, Method, ◌>>=◌,
}
use enocean_core.Thread.{
  IThread, ThreadParamVariant, param1, param2, param3, param_value, ThreadFunctionVariant,
  function1, function2, function3, Result, conclude_destroy, destroy,
}

pub data Policy : Type 0 where
  sched_fifo sched_other : Policy

pub data Inherit : Type 0 where
  inherit_sched explicit_sched : Inherit

-- `thread_create` carries the function and its argument.
pub data Call : Type 0 where
  attr_init attr_destroy thread_join : Call
  attr_setstacksize : ℕ → Call
  attr_setschedpolicy : Policy → Call
  attr_setschedparam : ℤ → Call
  attr_setinheritsched : Inherit → Call
  thread_create : ℕ → ℕ → Call

-- What the platform gives: its calls, PTHREAD_STACK_MIN, and the priorities of SCHED_FIFO.
pub record Pthread : Type 0 where
  pub os : Os Call
  pub stack_min : ℕ
  pub priority_min : ℤ
  pub priority_max : ℤ

-- `own` is `param`.
abbrev pub PosixThread : Type 0
PosixThread = IThread Call ℕ

unfoldable pub errno_to_thread_error : Errno → ThreadError
errno_to_thread_error einval = ThreadError.invalid_parameter
errno_to_thread_error enomem = ThreadError.insufficient_memory
errno_to_thread_error eagain = ThreadError.resource_limit_exceeded
errno_to_thread_error eperm = ThreadError.permission_denied
errno_to_thread_error esrch = ThreadError.thread_not_found
errno_to_thread_error edeadlk = ThreadError.deadlock
errno_to_thread_error ealready = ThreadError.already_created
errno_to_thread_error _ = ThreadError.unknown

unfoldable pub minimum_stack_size : ℕ → ℕ
minimum_stack_size stack_min = if stack_min == 0 then 16384 else stack_min

unfoldable pub sanitize_stack_size : ℕ → ℕ → ℕ
unfolding minimum_stack_size
sanitize_stack_size stack_min requested =
    let aligned = (requested + 7) % 2 ^ 64 / 8 * 8 in
    if requested == 0
    then minimum_stack_size stack_min
    else max aligned (minimum_stack_size stack_min)

abbrev pub invoke : Os Call → Call → Method PosixThread Rc
invoke os c t = let calls = c ∷ t.calls in (record t { calls = calls }, os calls)

abbrev pub lt_ℤ : ℤ → ℤ → Bool
lt_ℤ (pos a) (pos b) = ltb a b
lt_ℤ (pos a) (negsuc b) = false
lt_ℤ (negsuc a) (pos b) = true
lt_ℤ (negsuc a) (negsuc b) = ltb b a

abbrev pub clamp : ℤ → ℤ → ℤ → ℤ
clamp v lo hi = if lt_ℤ v lo then lo else if lt_ℤ hi v then hi else v

abbrev is_minus_one : ℤ → Bool
is_minus_one (negsuc zero) = true
is_minus_one _ = false

-- The policy, the priority and its use, each only if the one before went well.
unfoldable pub set_schedule : Os Call → ℤ → Method PosixThread Bool
set_schedule os clamped t =
    let (t1, policy_rc) = invoke os (attr_setschedpolicy sched_fifo) t in
    let (t2, param_rc) = invoke os (attr_setschedparam clamped) t1 in
    let (t3, explicit_rc) = invoke os (attr_setinheritsched explicit_sched) t2 in
    if is_success policy_rc
    then if is_success param_rc then (t3, is_success explicit_rc) else (t2, false)
    else (t1, false)

-- SCHED_OTHER and inheritance. What these calls return is not looked at.
unfoldable pub inherit_schedule : Os Call → PosixThread → PosixThread
inherit_schedule os t =
    let t' = (invoke os (attr_setschedpolicy sched_other) t).0 in
    (invoke os (attr_setinheritsched inherit_sched) t').0

-- What it leaves: no caller looks at its result.
unfoldable pub configure_priority : Pthread → ℤ → PosixThread → PosixThread
unfolding set_schedule inherit_schedule
configure_priority p (negsuc n) t = (invoke p.os (attr_setinheritsched inherit_sched) t).0
configure_priority p (pos n) t =
    let (set, ok) = set_schedule p.os (clamp (pos n) p.priority_min p.priority_max) t in
    if if is_minus_one p.priority_min then true else is_minus_one p.priority_max
    then (invoke p.os (attr_setinheritsched inherit_sched) t).0
    else if ok
    then set
    else inherit_schedule p.os set

-- The end of attempt_create.
unfoldable pub start : Os Call → ThreadFunctionVariant → ℕ → Method PosixThread Rc
start os (function1 f) param t =
    let (t', err) = invoke os (thread_create f param) t in ((invoke os attr_destroy t').0, err)
start os _ param t = ((invoke os attr_destroy t).0, failure einval)

-- attempt_create behind pthread_attr_setstacksize, from what that returned.
unfoldable pub schedule_and_start :
    Pthread → ThreadFunctionVariant → ℤ → ℕ → Bool → Rc → Method PosixThread Rc
unfolding configure_priority start
schedule_and_start p function priority param force_inherit (failure e) t =
    ((invoke p.os attr_destroy t).0, failure e)
schedule_and_start p function priority param force_inherit success t =
    start p.os function param
      (if force_inherit then inherit_schedule p.os t else configure_priority p priority t)

-- attempt_create behind pthread_attr_init.
unfoldable pub attempt_with_attr :
    Pthread → ThreadFunctionVariant → ℕ → ℤ → ℕ → Bool → Rc → Method PosixThread Rc
unfolding schedule_and_start
attempt_with_attr p function stack_size priority param force_inherit (failure e) t = (t, failure e)
attempt_with_attr p function stack_size priority param force_inherit success t =
    let (t', stack_err) = invoke p.os (attr_setstacksize stack_size) t in
    schedule_and_start p function priority param force_inherit stack_err t'

-- The lambda attempt_create, the same in both overloads but for the argument of the thread.
unfoldable pub attempt_create :
    Pthread → ThreadFunctionVariant → ℕ → ℤ → ℕ → Bool → Method PosixThread Rc
unfolding attempt_with_attr
attempt_create p function stack_size priority param force_inherit t =
    let (t', init_err) = invoke p.os attr_init t in
    attempt_with_attr p function stack_size priority param force_inherit init_err t'

abbrev pub is_nonnegative : ℤ → Bool
is_nonnegative (pos n) = true
is_nonnegative (negsuc n) = false

abbrev pub is_eperm : Rc → Bool
is_eperm (failure eperm) = true
is_eperm _ = false

-- What follows the attempts.
unfoldable pub conclude : String → Rc → Method PosixThread Result
conclude msg success t = (record t { active = true }, of_value tt)
conclude msg (failure e) t = (t, of_error ⦃t = Thread.traits⦄ (errno_to_thread_error e) msg)

-- One attempt, and one with inherited scheduling where the first was not permitted.
unfoldable pub attempt_twice :
    Pthread → ThreadFunctionVariant → ℕ → ℤ → ℕ → Method PosixThread Result
unfolding conclude
attempt_twice p function stack_size priority param t =
    let (t1, err) = attempt_create p function stack_size priority param false t in
    let (t2, err2) = attempt_create p function stack_size priority param true t1 in
    if is_eperm err && is_nonnegative priority
    then conclude "pthread_create failed" err2 t2
    else conclude "pthread_create failed" err t1

-- The overload with parameters.
unfoldable pub os_create_with :
    Pthread → ThreadFunctionVariant → ℕ → ℤ → ThreadParamVariant → Method PosixThread Result
unfolding attempt_twice
os_create_with p function requested priority (param_value v) t =
    attempt_twice p function (sanitize_stack_size p.stack_min requested) priority v
      (record t { own = v })
os_create_with p function requested priority (param1 a) t =
    attempt_twice p function (sanitize_stack_size p.stack_min requested) priority a
      (record t { own = a })
os_create_with p function requested priority _ t = (
  record t { own = 0 },
  of_error ⦃t = Thread.traits⦄ ThreadError.invalid_parameter "Invalid thread parameter type",
)

-- The overload without.
unfoldable pub os_create : Pthread → ThreadFunctionVariant → ℕ → ℤ → Method PosixThread Result
unfolding attempt_twice
os_create p function requested priority t =
    attempt_twice p function (sanitize_stack_size p.stack_min requested) priority 0
      (record t { own = 0 })

abbrev pub is_eintr : Rc → Bool
is_eintr (failure eintr) = true
is_eintr _ = false

-- The loop: `none` is a loop whose fuel ran out.
unfoldable pub join : Os Call → ℕ → PosixThread → PosixThread × Option Rc
join os zero t = (t, none)
join os (suc fuel) t =
    let (t', err) = invoke os thread_join t in
    let again = join os fuel t' in if is_eintr err then again else (t', some err)

unfoldable pub conclude_join : Option Rc → PosixThread → PosixThread × Option Result
conclude_join none t = (t, none)
conclude_join (some success) t = (record t { active = false }, some (of_value tt))
conclude_join (some (failure e)) t =
    (t, some (of_error ⦃t = Thread.traits⦄ (errno_to_thread_error e) "pthread_join failed"))

unfoldable pub os_destroy : Os Call → ℕ → PosixThread → PosixThread × Option Result
unfolding join conclude_join
os_destroy os fuel t = let (t', err) = join os fuel t in conclude_join err t'

-- ~Thread: what it leaves.
unfoldable pub destruct : Os Call → ℕ → PosixThread → PosixThread
unfolding destroy
destruct os fuel t = if t.active then (destroy (os_destroy os fuel) t).0 else t
