-- ===== src/Thread.antt =====
-- platform/common/ithread/IThread.hpp: the front of a thread. What the derived class does is an
-- argument, and `own` are its members. `calls` are the calls of the operating system so far, the newest
-- first, which no code reads. A pointer or a function is a number, and nullptr is 0.
pub mod Posix
pub mod Zephyr
use enocean_core.Base.{
  ℕ, Bool, true, false, not, ◌||◌, ◌&&◌, List, [], Option, some, none, if◌then◌else◌,
}
use enocean_core.Base.Int.{ℤ, pos}
use enocean_core.ErrorHandler.{ErrorHandler, Logged, of_value, of_error, has_value}
use enocean_core.Errors.Thread.{ThreadError}
use enocean_core.Errors.Thread
use enocean_core.Os.{Method}
use enocean_core.PlatformName.{copy_name}

pub data ThreadParamVariant : Type 0 where
  param1 : ℕ → ThreadParamVariant
  param2 : ℕ → ℕ → ThreadParamVariant
  param3 : ℕ → ℕ → ℕ → ThreadParamVariant
  param_value : ℕ → ThreadParamVariant

pub data ThreadFunctionVariant : Type 0 where
  function1 function2 function3 : ℕ → ThreadFunctionVariant

pub record ThreadStackInfo : Type 0 where
  pub stack_size : ℕ
  pub stack_pointer : ℕ

pub record IThread (Call Own : Type 0) : Type 0 where
  pub active : Bool
  pub thread_name : List ℕ
  pub stack_info : ThreadStackInfo
  pub thread_priority : ℤ
  pub own : Own
  pub calls : List Call

abbrev pub Result : Type 0
Result = Logged (ErrorHandler (Unit {0}) ThreadError)

module _ {Call Own : Type 0} where
  unfoldable pub construct : List ℕ → Own → IThread Call Own
  construct name own = record {
    active = false;
    thread_name = copy_name name;
    stack_info = record { stack_size = 0; stack_pointer = 0 };
    thread_priority = pos 0;
    own = own;
    calls = [];
  }

  -- Both overloads: they differ in what they pass to `os_create`.
  unfoldable pub create :
      Method (IThread Call Own) Result → ThreadStackInfo → ℤ → Method (IThread Call Own) Result
  create os_create info priority t =
      let (t', result) = os_create (record t { stack_info = info; thread_priority = priority }) in
      if t.active
      then (t, of_error ⦃t = Thread.traits⦄ ThreadError.already_created "Thread already created")
      else (record t' { active = t'.active || has_value result.0 }, result)

  -- What follows os_destroy; `none` is one that does not return.
  unfoldable pub conclude_destroy :
      IThread Call Own → Option Result → IThread Call Own × Option Result
  conclude_destroy t none = (t, none)
  conclude_destroy t (some result) =
      (record t { active = t.active && not (has_value result.0) }, some result)

  unfoldable pub destroy :
      (IThread Call Own → IThread Call Own × Option Result)
      → IThread Call Own
      → IThread Call Own × Option Result
  unfolding conclude_destroy
  destroy os_destroy t =
      let (t', outcome) = os_destroy t in
      if not t.active then (t, some (of_value tt)) else conclude_destroy t' outcome
