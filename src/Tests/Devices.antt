-- ===== src/Tests/Devices.antt =====
-- Threads and serial ports on concrete inputs.
use enocean_core.Base.{
  ℕ, zero, suc, ◌+◌, ◌%◌, ◌≤◌, ◌<◌, ◌≡◌, ◌⊎◌, refl, arith, max, true, false, List, [], ◌∷◌, some,
  none,
}
use enocean_core.Base.Int.{pos}
use enocean_core.Os.{success, failure, eintr, Os}
use enocean_core.Os.Discipline.{is_open, IsOrderly}
use enocean_core.Thread.{function1, param1, ThreadStackInfo, construct}
use enocean_core.Thread.Posix.{
  Call, Pthread, PosixThread, thread_join, destruct, minimum_stack_size, sanitize_stack_size,
}
use enocean_core.Thread.Posix.Orderly.{Op, creates, destroys, run_ops}
use enocean_core.Thread.Posix.Attempts.{thread_role, attr_role}
use enocean_core.Thread.Posix.Orderly
use enocean_core.Thread.Posix.Stack.{sanitize_stack_size-le}
use enocean_core.Thread.Posix.Join.{joins, destruct-inactive}
use enocean_core.Board.Serial.{Drivers}
use enocean_core.Board.Serial.Objects.{
  constructs, initializes, move_constructs, move_assigns, destructs, times_initialised,
  times_deinitialised, holders,
}
use enocean_core.Board.Serial.Objects
use enocean_core.Board.Serial.Ownership.{empty, run_ops-empty}
use enocean_core.Tests.System.{always, led_name}

abbrev a_platform : Pthread
a_platform = record { os = always; stack_min = 16384; priority_min = pos 1; priority_max = pos 99 }

abbrev a_stack : ThreadStackInfo
a_stack = record { stack_size = 20001; stack_pointer = 0 }

abbrev thread_ops : List Op
thread_ops =
    creates (function1 7) a_stack (pos 3) (some (param1 9))
    ∷ destroys 1
    ∷ creates (function1 7) a_stack (pos 3) none
    ∷ []

abbrev a_thread : PosixThread
a_thread = run_ops a_platform (construct led_name 0) thread_ops

run_ops-active_example :
    IsOrderly thread_role always a_thread.calls
    × IsOrderly attr_role always a_thread.calls
    × (is_open thread_role always a_thread.calls ≡ a_thread.active)
    × (is_open attr_role always a_thread.calls ≡ false)
run_ops-active_example = Orderly.run_ops-active a_platform led_name thread_ops

-- A system that interrupts the first join.
abbrev interrupting : Os Call
interrupting (thread_join ∷ thread_join ∷ calls) = success
interrupting calls = failure eintr

abbrev active_thread : PosixThread
active_thread = record (construct led_name 0) { active = true; calls = [] }

destruct-inactive_example :
    ((destruct interrupting 2 active_thread).active ≡ false)
    × ((destruct interrupting 2 active_thread).calls ≡ joins 2 [])
destruct-inactive_example =
    destruct-inactive interrupting 1 2 active_thread refl first refl (omega arith)
  where
    first : (j : ℕ) → j < 1 → interrupting (joins (suc j) []) ≡ failure eintr
    first zero h = refl
    first (suc j) h = absurd (omega arith)

sanitize_stack_size-le_example :
    (20001 ≤ sanitize_stack_size 16384 20001)
    × (minimum_stack_size 16384 ≤ sanitize_stack_size 16384 20001)
    × (sanitize_stack_size 16384 20001 ≤ max 20001 (minimum_stack_size 16384) + 7)
    × ((sanitize_stack_size 16384 20001 % 8 ≡ 0)
        ⊎ (sanitize_stack_size 16384 20001 ≡ minimum_stack_size 16384))
sanitize_stack_size-le_example = sanitize_stack_size-le 16384 20001 (omega arith)

abbrev some_drivers : Drivers
some_drivers = record { init = λ _. success; amount = λ _. 0; moved_from = λ port. port }

abbrev serial_ops : List Objects.Op
serial_ops =
    constructs 4
    ∷ initializes 0
    ∷ move_constructs 0
    ∷ constructs 5
    ∷ initializes 2
    ∷ move_assigns 2 1
    ∷ destructs 0
    ∷ []

run_ops-empty_example :
    times_initialised some_drivers 4 (Objects.run_ops some_drivers empty serial_ops).calls
    ≡ times_deinitialised 4 (Objects.run_ops some_drivers empty serial_ops).calls
      + holders 4 (Objects.run_ops some_drivers empty serial_ops).objects
run_ops-empty_example = run_ops-empty some_drivers 4 serial_ops
