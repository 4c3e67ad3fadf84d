-- ===== src/Thread/Zephyr.antt =====
-- platform/zephyr_core/thread/Thread.cpp, over any behaviour of Zephyr's calls.
use enocean_core.Base.{ℕ, true, false, ◌∷◌, Option, some}
use enocean_core.Base.Int.{ℤ}
use enocean_core.ErrorHandler.{of_value, of_error}
use enocean_core.Errors.Thread.{ThreadError}
use enocean_core.Errors.Thread
use enocean_core.Os.{Errno, einval, eagain, esrch, ealready, Rc, success, failure, Os, Method}
use enocean_core.Thread.{
  IThread, ThreadParamVariant, param1, param2, param3, param_value, ThreadFunctionVariant,
  function3, ThreadStackInfo, Result,
}

-- k_thread_create carries the stack, the function, its three arguments and the priority; it succeeds
-- where it returns an identifier.
pub data Call : Type 0 where
  k_thread_create : ThreadStackInfo → ℕ → ℕ → ℕ → ℕ → ℤ → Call
  k_thread_join : Call

-- The members p1, p2 and p3.
pub record Arguments : Type 0 where
  pub p1 : ℕ
  pub p2 : ℕ
  pub p3 : ℕ

abbrev pub ZephyrThread : Type 0
ZephyrThread = IThread Call Arguments

unfoldable pub errno_to_thread_error : Errno → ThreadError
errno_to_thread_error einval = ThreadError.invalid_parameter
errno_to_thread_error eagain = ThreadError.resource_limit_exceeded
errno_to_thread_error esrch = ThreadError.thread_not_found
errno_to_thread_error ealready = ThreadError.already_created
errno_to_thread_error _ = ThreadError.unknown

abbrev pub invoke : Os Call → Call → Method ZephyrThread Rc
invoke os c t = let calls = c ∷ t.calls in (record t { calls = calls }, os calls)

unfoldable pub arguments : ThreadParamVariant → Arguments
arguments (param1 a) = record { p1 = a; p2 = 0; p3 = 0 }
arguments (param2 a b) = record { p1 = a; p2 = b; p3 = 0 }
arguments (param3 a b c) = record { p1 = a; p2 = b; p3 = c }
arguments (param_value v) = record { p1 = v; p2 = 0; p3 = 0 }

abbrev pub wrong_function : Result
wrong_function =
    of_error ⦃t = Thread.traits⦄ ThreadError.invalid_parameter
      "Invalid thread function type for Zephyr"

-- What follows k_thread_create.
unfoldable pub conclude : Rc → Method ZephyrThread Result
conclude success t = (record t { active = true }, of_value tt)
conclude (failure e) t =
    (t, of_error ⦃t = Thread.traits⦄ ThreadError.creation_failed "k_thread_create failed")

unfoldable pub start : Os Call → ThreadStackInfo → ℤ → ℕ → Arguments → Method ZephyrThread Result
unfolding conclude
start os info priority f given t =
    let (t', created) =
      invoke os (k_thread_create info f given.p1 given.p2 given.p3 priority)
        (record t { own = given }) in
    conclude created t'

-- The overload with parameters.
unfoldable pub os_create_with :
    Os Call
    → ThreadFunctionVariant
    → ThreadStackInfo
    → ℤ
    → ThreadParamVariant
    → Method ZephyrThread Result
unfolding arguments start
os_create_with os (function3 f) info priority params t =
    start os info priority f (arguments params) t
os_create_with os _ info priority params t = (t, wrong_function)

-- The overload without.
unfoldable pub os_create :
    Os Call → ThreadFunctionVariant → ThreadStackInfo → ℤ → Method ZephyrThread Result
unfolding start
os_create os (function3 f) info priority t =
    start os info priority f (record { p1 = 0; p2 = 0; p3 = 0 }) t
os_create os _ info priority t = (t, wrong_function)

unfoldable pub conclude_join : Rc → Method ZephyrThread Result
conclude_join success t = (record t { active = false }, of_value tt)
conclude_join (failure e) t =
    (t, of_error ⦃t = Thread.traits⦄ (errno_to_thread_error e) "k_thread_join failed")

unfoldable pub os_destroy : Os Call → ZephyrThread → ZephyrThread × Option Result
unfolding conclude_join
os_destroy os t =
    let (t', err) = invoke os k_thread_join t in
    let (joined, result) = conclude_join err t' in (joined, some result)
