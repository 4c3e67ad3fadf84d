-- ===== src/Board/Led/Progress.antt =====
-- How a thread leaves LedBlinker::blink (boards/posix/led/Led.cpp).
use enocean_core.Base.{ℕ, Bool, true, false, List, ◌≡◌, refl, arith, none}
use enocean_core.Os.{Os}
use enocean_core.Mutex.{unlock, destruct_locker}
use enocean_core.Mutex.Posix.{Call, do_unlock}
use enocean_core.Mutex.Posix.Owner.{owner_after, owner, IsErrorChecking}
use enocean_core.Board.Gpio.{DigitalState}
use enocean_core.Board.Led.{level}
use enocean_core.Board.Led.Threads.{
  Pc, outside, entered, loaded, stored, decided, wrote, System, leave, Step, loads, stores, decides,
  writes, leaves, Reach,
}
use enocean_core.Board.Led.Exclusive.{is_inside, IsExclusive, Step-IsExclusive, Reach-IsExclusive}

-- Steps of one thread alone.
pub data Runs (os : Os Call) (thread : ℕ) (t : System) : System → Type 0 where
  stays : Runs os thread t t
  moves : {s s' : System} → Step os thread s s' → Runs os thread t s' → Runs os thread t s

-- It comes to where it is outside, and nobody has the mutex.
abbrev pub CanLeave : Os Call → ℕ → System → Type 0
CanLeave os thread s =
    (t : System) × Runs os thread t s
    × (t.pc thread ≡ outside)
    × (owner os t.led.mutex.calls ≡ none)

module _ {os : Os Call} (checks : IsErrorChecking os) (thread : ℕ) where
  leave-outside :
      (s : System)
      → IsExclusive os s
      → s.pc thread ≡ wrote
      → ((leave os thread true s).pc thread ≡ outside)
        × (owner os (leave os thread true s).led.mutex.calls ≡ none)
  unfolding destruct_locker unlock do_unlock owner owner_after
  leave-outside s h at =
      let own = h.holds thread (ground (arith, at)) in
      let freed = checks.unlocks thread s.led.mutex.calls own in
      (ground arith, ground (arith, h.ready, freed))

  wrote-CanLeave : (s : System) → IsExclusive os s → s.pc thread ≡ wrote → CanLeave os thread s
  wrote-CanLeave s h at =
      let gone = leave-outside s h at in
      (leave os thread true s, moves (leaves h.alive at) stays, gone.0, gone.1)

  -- One step on.
  moves-CanLeave :
      {s s' : System} → Step os thread s s' → CanLeave os thread s' → CanLeave os thread s
  moves-CanLeave step (t, run, out, free) = (t, moves step run, out, free)

  decided-CanLeave :
      (s : System) (state : DigitalState)
      → IsExclusive os s
      → s.pc thread ≡ decided state
      → CanLeave os thread s
  decided-CanLeave s state h at =
      let step = writes state h.alive at in
      moves-CanLeave step (wrote-CanLeave _ (Step-IsExclusive checks thread step h) (ground arith))

  stored-CanLeave : (s : System) → IsExclusive os s → s.pc thread ≡ stored → CanLeave os thread s
  stored-CanLeave s h at =
      let step = decides h.alive at in
      moves-CanLeave step (
        decided-CanLeave _ (level s.led.status) (Step-IsExclusive checks thread step h)
          (ground arith))

  loaded-CanLeave :
      (s : System) (b : Bool) → IsExclusive os s → s.pc thread ≡ loaded b → CanLeave os thread s
  loaded-CanLeave s b h at =
      let step = stores b h.alive at in
      moves-CanLeave step (stored-CanLeave _ (Step-IsExclusive checks thread step h) (ground arith))

  entered-CanLeave :
      (s : System) → IsExclusive os s → s.pc thread ≡ entered true → CanLeave os thread s
  entered-CanLeave s h at =
      let step = loads h.alive at in
      moves-CanLeave step
        (loaded-CanLeave _ s.led.status (Step-IsExclusive checks thread step h) (ground arith))

  inside-CanLeave :
      (s : System) (p : Pc)
      → IsExclusive os s
      → s.pc thread ≡ p
      → is_inside p ≡ true
      → CanLeave os thread s
  inside-CanLeave s outside h at i = cc
  inside-CanLeave s (entered true) h at i = entered-CanLeave s h at
  inside-CanLeave s (entered false) h at i = cc
  inside-CanLeave s (loaded b) h at i = loaded-CanLeave s b h at
  inside-CanLeave s stored h at i = stored-CanLeave s h at
  inside-CanLeave s (decided state) h at i = decided-CanLeave s state h at
  inside-CanLeave s wrote h at i = wrote-CanLeave s h at

-- However threads were interleaved before, on a mutex that the system keeps as POSIX says: a thread that
-- is inside can leave by steps of its own, and then nobody has the mutex.
pub Reach-CanLeave :
    {os : Os Call} {name : List ℕ} {s : System} (thread : ℕ)
    → IsErrorChecking os
    → Reach os name s
    → is_inside (s.pc thread) ≡ true
    → CanLeave os thread s
Reach-CanLeave {s} thread checks r inside =
    inside-CanLeave checks thread s (s.pc thread) (Reach-IsExclusive checks r) refl inside
