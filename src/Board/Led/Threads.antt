-- ===== src/Board/Led/Threads.antt =====
-- Threads that call LedBlinker::blink on one LED, interleaved in any order: each statement of blink that
-- touches what they share is a step. A call that blocks is a step when it returns.
use enocean_core.Base.{ℕ, Bool, true, false, not, List, [], ◌∷◌, ◌==◌, ◌≡◌, if◌then◌else◌}
use enocean_core.ErrorHandler.{ErrorHandler}
use enocean_core.Errors.Gpio.{GpioError}
use enocean_core.Os.{Os}
use enocean_core.Mutex.{construct, construct_locker, destruct_locker}
use enocean_core.Mutex.Posix.{Call, do_lock, do_unlock}
use enocean_core.Board.Gpio.{DigitalState}
use enocean_core.Board.Led.{Led, init_led, level}

-- Where a thread is: outside of blink; behind the locker's constructor, with `locked_`; with the
-- status read; with it negated; with the level chosen, from the status read again; and with it written.
pub data Pc : Type 0 where
  outside : Pc
  entered : Bool → Pc
  loaded : Bool → Pc
  stored : Pc
  decided : DigitalState → Pc
  wrote : Pc

pub record System : Type 0 where
  pub led : Led
  pub pc : ℕ → Pc
  -- std::terminate was called.
  pub terminated : Bool

abbrev pub update : (ℕ → Pc) → ℕ → Pc → ℕ → Pc
update pc thread p i = if i == thread then p else pc i

abbrev pub enter : Os Call → ℕ → System → System
enter os thread s =
    let (mutex, locked) = construct_locker (do_lock os thread false) s.led.mutex in
    record s { led = record s.led { mutex = mutex }; pc = update s.pc thread (entered locked) }

abbrev pub leave : Os Call → ℕ → Bool → System → System
leave os thread locked s =
    let (mutex, alive) = destruct_locker (do_unlock os thread) locked s.led.mutex in
    record {
      led = record s.led { mutex = mutex };
      pc = update s.pc thread outside;
      terminated = not alive;
    }

-- A step of one thread.
pub data Step (os : Os Call) (thread : ℕ) (s : System) : System → Type 0 where
  enters : s.terminated ≡ false → s.pc thread ≡ outside → Step os thread s (enter os thread s)
  gives_up :
      s.terminated ≡ false
      → s.pc thread ≡ entered false
      → Step os thread s (leave os thread false s)
  loads :
      s.terminated ≡ false
      → s.pc thread ≡ entered true
      → Step os thread s (record s { pc = update s.pc thread (loaded s.led.status) })
  stores :
      (b : Bool)
      → s.terminated ≡ false
      → s.pc thread ≡ loaded b
      → Step os thread s
          (record s { led = record s.led { status = not b }; pc = update s.pc thread stored })
  decides :
      s.terminated ≡ false
      → s.pc thread ≡ stored
      → Step os thread s (record s { pc = update s.pc thread (decided (level s.led.status)) })
  writes :
      (state : DigitalState)
      → s.terminated ≡ false
      → s.pc thread ≡ decided state
      → Step os thread s (record s {
        led = record s.led { written = state ∷ s.led.written };
        pc = update s.pc thread wrote;
      })
  leaves : s.terminated ≡ false → s.pc thread ≡ wrote → Step os thread s (leave os thread true s)

-- A LED whose `init` went well, and no thread in `blink`.
abbrev pub start : Os Call → ErrorHandler (Unit {0}) GpioError → List ℕ → System
start os set_mode_result name = record {
  led = record {
    mutex = (init_led os set_mode_result (construct name)).0;
    status = false;
    written = [];
  };
  pc = λ _. outside;
  terminated = false;
}

pub data Reach (os : Os Call) (name : List ℕ) : System → Type 0 where
  begins :
      (set_mode_result : ErrorHandler (Unit {0}) GpioError)
      → (init_led os set_mode_result (construct name)).1 ≡ true
      → Reach os name (start os set_mode_result name)
  goes : {s t : System} (thread : ℕ) → Reach os name s → Step os thread s t → Reach os name t
