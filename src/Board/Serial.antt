-- ===== src/Board/Serial.antt =====
-- boards/common/iserial/ISerial.hpp: Serial, which owns the driver of a serial port. A driver is the
-- number of its port, and what a move leaves behind in it is a parameter. `calls` are the calls of
-- drivers so far, the newest first.
pub mod Objects
pub mod Ownership
use enocean_core.Base.{ℕ, Bool, true, false, not, ◌||◌, List, [], ◌∷◌, ◌==◌, length, if◌then◌else◌}
use enocean_core.Os.{Rc, is_success}

-- A call of a driver, with its port. `asks` are get_tx_pending and get_rx_pending.
pub data Call : Type 0 where
  inits deinits asks flushes : ℕ → Call
  writes : ℕ → List ℕ → Call
  reads : ℕ → ℕ → Call

-- What the drivers answer to the newest call, and what a move leaves.
pub record Drivers : Type 0 where
  pub init : List Call → Rc
  pub amount : List Call → ℕ
  pub moved_from : ℕ → ℕ

pub record Serial : Type 0 where
  pub driver : ℕ
  pub is_initialized : Bool

unfoldable pub construct : ℕ → Serial
construct driver = record { driver = driver; is_initialized = false }

-- The result is `is_initialized_`.
unfoldable pub initialize : Drivers → Serial → List Call → Serial × List Call × Bool
initialize drivers s calls =
    let called = inits s.driver ∷ calls in
    let ok = is_success (drivers.init called) in
    if not s.is_initialized
    then (record s { is_initialized = ok }, called, ok)
    else (s, calls, true)

unfoldable pub cleanup : Serial → List Call → Serial × List Call
cleanup s calls =
    if s.is_initialized
    then (record s { is_initialized = false }, deinits s.driver ∷ calls)
    else (s, calls)

-- The constructor that moves: the new object, and what is left of the other.
unfoldable pub move_construct : Drivers → Serial → Serial × Serial
move_construct drivers other = (
  record { driver = other.driver; is_initialized = other.is_initialized },
  record { driver = drivers.moved_from other.driver; is_initialized = false },
)

-- The assignment that moves, between two objects: this one, what is left of the other, and the calls.
unfoldable pub move_assign : Drivers → Serial → Serial → List Call → Serial × Serial × List Call
unfolding cleanup
move_assign drivers s other calls =
    let (cleaned, calls') = cleanup s calls in
    (
      record { driver = other.driver; is_initialized = other.is_initialized },
      record { driver = drivers.moved_from other.driver; is_initialized = false },
      calls',
    )

abbrev pub is_empty : List ℕ → Bool
is_empty [] = true
is_empty (x ∷ xs) = false

unfoldable pub write : Drivers → Serial → List ℕ → List Call → List Call × ℕ
write drivers s data' calls =
    let called = writes s.driver data' ∷ calls in
    if not s.is_initialized || is_empty data' then (calls, 0) else (called, drivers.amount called)

-- `size` is that of the buffer.
unfoldable pub read : Drivers → Serial → ℕ → List Call → List Call × ℕ
read drivers s size calls =
    let called = reads s.driver size ∷ calls in
    if not s.is_initialized || size == 0 then (calls, 0) else (called, drivers.amount called)

-- get_tx_pending and get_rx_pending.
unfoldable pub get_pending : Drivers → Serial → List Call → List Call × ℕ
get_pending drivers s calls = let called = asks s.driver ∷ calls in (called, drivers.amount called)

-- flush_tx and flush_rx.
unfoldable pub flush : Serial → List Call → List Call
flush s calls = flushes s.driver ∷ calls
