-- ===== src/Board/Led/Whole.antt =====
-- LedBlinker::blink as one call (boards/posix/led/Led.cpp), and as the steps of a thread.
use enocean_core.Base.{ℕ, true, false, not, ◌∷◌, ◌≡◌, Bool-cases, inl, inr, arith}
use enocean_core.Os.{Os}
use enocean_core.Mutex.{construct_locker}
use enocean_core.Mutex.Posix.{Call, do_lock}
use enocean_core.Board.Led.{level, blink}
use enocean_core.Board.Led.Threads.{
  outside, loaded, stored, decided, wrote, System, update, enter, leave, enters, gives_up, loads,
  stores, decides, writes, leaves,
}
use enocean_core.Board.Led.Progress.{Runs, stays, moves}

-- The thread is done, and the LED is as `blink` leaves it.
abbrev pub Blinks : Os Call → ℕ → System → Type 0
Blinks os thread s =
    (t : System) × Runs os thread t s
    × (t.pc thread ≡ outside)
    × (t.led ≡ (blink os thread s.led).0)

module _ (os : Os Call) (thread : ℕ) (s : System) where
  alone-Blinks :
      s.terminated ≡ false
      → s.pc thread ≡ outside
      → (construct_locker (do_lock os thread false) s.led.mutex).1 ≡ true
      → Blinks os thread s
  unfolding blink
  alone-Blinks on at locked =
      let s1 = enter os thread s in
      let s2 : System = record s1 { pc = update s1.pc thread (loaded s1.led.status) } in
      let s3 : System = record s2 {
        led = record s2.led { status = not s1.led.status };
        pc = update s2.pc thread stored;
      } in
      let state = level s3.led.status in
      let s4 : System = record s3 { pc = update s3.pc thread (decided state) } in
      let s5 : System = record s4 {
        led = record s4.led { written = state ∷ s4.led.written };
        pc = update s4.pc thread wrote;
      } in
      (
        leave os thread true s5,
        moves (enters on at) (
            moves (loads on (ground arith)) (
              moves (stores s1.led.status on (ground arith)) (
                moves (decides on (ground arith)) (
                  moves (writes state on (ground arith))
                    (moves (leaves on (ground arith)) stays))))),
        ground arith,
        ground (arith, locked),
      )

  refused-Blinks :
      s.terminated ≡ false
      → s.pc thread ≡ outside
      → (construct_locker (do_lock os thread false) s.led.mutex).1 ≡ false
      → Blinks os thread s
  unfolding blink
  refused-Blinks on at refused =
      let s1 = enter os thread s in
      (
        leave os thread false s1,
        moves (enters on at) (moves (gives_up on (ground arith)) stays),
        ground arith,
        ground (arith, refused),
      )

-- A thread that calls `blink` and is not interrupted takes the LED, step by step, to where `blink` says.
pub blink-Blinks :
    (os : Os Call) (thread : ℕ) (s : System)
    → s.terminated ≡ false
    → s.pc thread ≡ outside
    → Blinks os thread s
blink-Blinks os thread s on at =
    elim (Bool-cases (construct_locker (do_lock os thread false) s.led.mutex).1) [
      | inl locked ↦ alone-Blinks os thread s on at locked
      | inr refused ↦ refused-Blinks os thread s on at refused
    ]
