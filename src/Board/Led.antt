-- ===== src/Board/Led.antt =====
-- boards/posix/led/Led.cpp, and boards/zephyr/led/Led.cpp, which has the same two functions: a LED that
-- several threads may blink, behind a mutex. Of the GPIO driver, only what is written to the pin counts.
pub mod Threads
pub mod Exclusive
pub mod Progress
pub mod Whole
use enocean_core.Base.{ℕ, Bool, true, false, not, List, [], ◌∷◌, if◌then◌else◌}
use enocean_core.ErrorHandler.{ErrorHandler, has_value}
use enocean_core.Errors.Gpio.{GpioError}
use enocean_core.Os.{Os}
use enocean_core.Board.Gpio.{DigitalState, low, high}
use enocean_core.Mutex.{IMutex, init, construct_locker, destruct_locker}
use enocean_core.Mutex.Posix.{Call, PosixMutex, do_init, do_lock, do_unlock}

-- The LedBlinker with the mutex of the file; `written` is what was written to the pin, the latest first.
pub record Led : Type 0 where
  pub mutex : PosixMutex
  pub status : Bool
  pub written : List DigitalState

-- LedBlinker::init, from what set_mode returns.
unfoldable pub init_led :
    Os Call → ErrorHandler (Unit {0}) GpioError → PosixMutex → PosixMutex × Bool
unfolding init
init_led os set_mode_result mutex =
    let (mutex', mutex_result) = init (do_init os) mutex in
    (mutex', if has_value mutex_result.0 then has_value set_mode_result else false)

-- The level for a status.
unfoldable pub level : Bool → DigitalState
level true = low
level false = high

-- LedBlinker::blink, called by a thread that no other interrupts. The result is whether the program
-- goes on.
unfoldable pub blink : Os Call → ℕ → Led → Led × Bool
unfolding construct_locker destruct_locker level
blink os thread led =
    let (mutex, locked) = construct_locker (do_lock os thread false) led.mutex in
    let status = not led.status in
    let written = level status ∷ led.written in
    let (released, alive) = destruct_locker (do_unlock os thread) locked mutex in
    if locked
    then (record { mutex = released; status = status; written = written }, alive)
    else (record { mutex = released; status = led.status; written = led.written }, alive)
