-- ===== src/Board/Led/Exclusive.antt =====
-- What holds while threads blink a LED (boards/posix/led/Led.cpp) under a mutex
-- (platform/posix_core/mutex/Mutex.cpp).
use enocean_core.Base.{
  ℕ, zero, suc, Bool, true, false, not, List, [], ◌∷◌, ◌≡◌, ◌≢◌, ◌&&◌, refl, arith, if◌then◌else◌,
  length, Option, some, none,
}
use enocean_core.ErrorHandler.{ErrorHandler}
use enocean_core.Errors.Gpio.{GpioError}
use enocean_core.Os.{Os}
use enocean_core.Mutex.{construct, init, lock, unlock, construct_locker, destruct_locker}
use enocean_core.Mutex.Posix.{
  Call, conclude, init_with_attr, init_attr, init_fresh, do_init, do_lock, do_unlock,
}
use enocean_core.Mutex.Posix.Owner.{owner_after, owner, IsErrorChecking}
use enocean_core.Board.Gpio.{DigitalState}
use enocean_core.Board.Led.{init_led, level}
use enocean_core.Board.Led.Threads.{
  Pc, outside, entered, loaded, stored, decided, wrote, System, update, enter, leave, Step, enters,
  gives_up, loads, stores, decides, writes, leaves, start, Reach, begins, goes,
}

-- The thread is in `blink` and its locker has the mutex.
abbrev pub is_inside : Pc → Bool
is_inside outside = false
is_inside (entered locked) = locked
is_inside (loaded b) = true
is_inside stored = true
is_inside (decided state) = true
is_inside wrote = true

-- The status is negated, and the level not written yet.
abbrev pub is_ahead : Pc → Bool
is_ahead stored = true
is_ahead (decided state) = true
is_ahead _ = false

abbrev pub is_ahead_by : Option ℕ → (ℕ → Pc) → Bool
is_ahead_by none pc = false
is_ahead_by (some thread) pc = is_ahead (pc thread)

abbrev pub odd : ℕ → Bool
odd zero = false
odd (suc n) = not (odd n)

-- The first `n` levels, the latest first.
abbrev pub levels : ℕ → List DigitalState
levels zero = []
levels (suc n) = level (odd (suc n)) ∷ levels n

pub record IsExclusive (os : Os Call) (s : System) : Type 0 where
  pub ready : s.led.mutex.initialized ≡ true
  pub alive : s.terminated ≡ false
  pub holds : (i : ℕ) → is_inside (s.pc i) ≡ true → owner os s.led.mutex.calls ≡ some i
  pub flips : s.led.status ≡ (
      if is_ahead_by (owner os s.led.mutex.calls) s.pc
      then not (odd (length s.led.written))
      else odd (length s.led.written))
  pub current : (i : ℕ) (b : Bool) → s.pc i ≡ loaded b → b ≡ s.led.status
  pub chosen : (i : ℕ) (state : DigitalState) → s.pc i ≡ decided state → state ≡ level s.led.status
  pub alternates : s.led.written ≡ levels (length s.led.written)

module _ {os : Os Call} (checks : IsErrorChecking os) where
  enter-IsExclusive :
      (thread : ℕ) (s : System)
      → s.pc thread ≡ outside
      → IsExclusive os s
      → IsExclusive os (enter os thread s)
  unfolding construct_locker lock do_lock owner owner_after
  enter-IsExclusive thread s at h =
      let free = checks.locks thread s.led.mutex.calls in
      record {
        ready = ground (arith, h.ready);
        alive = h.alive;
        holds = λ i inside. ground (arith, h.ready, h.holds i, h.holds thread, free);
        flips = ground (arith, h.ready, h.flips, free);
        current = λ i b e. ground (arith, h.current i b);
        chosen = λ i state e. ground (arith, h.chosen i state);
        alternates = h.alternates;
      }

  gives_up-IsExclusive :
      (thread : ℕ) (s : System)
      → s.pc thread ≡ entered false
      → IsExclusive os s
      → IsExclusive os (leave os thread false s)
  unfolding destruct_locker
  gives_up-IsExclusive thread s at h = record {
    ready = h.ready;
    alive = refl;
    holds = λ i inside. ground (arith, h.holds i);
    flips = ground (arith, h.flips);
    current = λ i b e. ground (arith, h.current i b);
    chosen = λ i state e. ground (arith, h.chosen i state);
    alternates = h.alternates;
  }

  leave-IsExclusive :
      (thread : ℕ) (s : System)
      → s.pc thread ≡ wrote
      → IsExclusive os s
      → IsExclusive os (leave os thread true s)
  unfolding destruct_locker unlock do_unlock owner owner_after
  leave-IsExclusive thread s at h =
      let own = h.holds thread (ground (arith, at)) in
      let freed = checks.unlocks thread s.led.mutex.calls own in
      record {
        ready = ground (arith, h.ready, freed);
        alive = ground (arith, h.ready, freed);
        holds = λ i inside. ground (arith, h.ready, freed, h.holds i, own);
        flips = ground (arith, h.ready, freed, h.flips, own, at);
        current = λ i b e. ground (arith, h.current i b);
        chosen = λ i state e. ground (arith, h.chosen i state);
        alternates = h.alternates;
      }

  loads-IsExclusive :
      (thread : ℕ) (s : System)
      → s.pc thread ≡ entered true
      → IsExclusive os s
      → IsExclusive os (record s { pc = update s.pc thread (loaded s.led.status) })
  loads-IsExclusive thread s at h =
      let own = h.holds thread (ground (arith, at)) in
      record {
        ready = h.ready;
        alive = h.alive;
        holds = λ i inside. ground (arith, h.holds i, own);
        flips = ground (arith, h.flips, own, at);
        current = λ i b e. ground (arith, h.current i b);
        chosen = λ i state e. ground (arith, h.chosen i state);
        alternates = h.alternates;
      }

  stores-IsExclusive :
      (thread : ℕ) (s : System) (b : Bool)
      → s.pc thread ≡ loaded b
      → IsExclusive os s
      → IsExclusive os
          (record s { led = record s.led { status = not b }; pc = update s.pc thread stored })
  stores-IsExclusive thread s b at h =
      let own = h.holds thread (ground (arith, at)) in
      record {
        ready = h.ready;
        alive = h.alive;
        holds = λ i inside. ground (arith, h.holds i, own);
        flips = ground (arith, h.flips, own, at, h.current thread b at);
        current = λ i c e. ground (arith, h.holds i, own, at, e);
        chosen = λ i state e. ground (arith, h.holds i, own, at, e);
        alternates = h.alternates;
      }

  decides-IsExclusive :
      (thread : ℕ) (s : System)
      → s.pc thread ≡ stored
      → IsExclusive os s
      → IsExclusive os (record s { pc = update s.pc thread (decided (level s.led.status)) })
  decides-IsExclusive thread s at h =
      let own = h.holds thread (ground (arith, at)) in
      record {
        ready = h.ready;
        alive = h.alive;
        holds = λ i inside. ground (arith, h.holds i, own);
        flips = ground (arith, h.flips, own, at);
        current = λ i b e. ground (arith, h.current i b);
        chosen = λ i state e. ground (arith, h.chosen i state);
        alternates = h.alternates;
      }

  writes-IsExclusive :
      (thread : ℕ) (s : System) (state : DigitalState)
      → s.pc thread ≡ decided state
      → IsExclusive os s
      → IsExclusive os (record s {
        led = record s.led { written = state ∷ s.led.written };
        pc = update s.pc thread wrote;
      })
  writes-IsExclusive thread s state at h =
      let own = h.holds thread (ground (arith, at)) in
      record {
        ready = h.ready;
        alive = h.alive;
        holds = λ i inside. ground (arith, h.holds i, own);
        flips = ground (arith, h.flips, own, at);
        current = λ i b e. ground (arith, h.current i b);
        chosen = λ i l e. ground (arith, h.chosen i l);
        alternates = ground (arith, h.alternates, h.flips, own, at, h.chosen thread state at);
      }

  pub Step-IsExclusive :
      (thread : ℕ) {s t : System} → Step os thread s t → IsExclusive os s → IsExclusive os t
  Step-IsExclusive thread {s} (enters on at) h = enter-IsExclusive thread s at h
  Step-IsExclusive thread {s} (gives_up on at) h = gives_up-IsExclusive thread s at h
  Step-IsExclusive thread {s} (loads on at) h = loads-IsExclusive thread s at h
  Step-IsExclusive thread {s} (stores b on at) h = stores-IsExclusive thread s b at h
  Step-IsExclusive thread {s} (decides on at) h = decides-IsExclusive thread s at h
  Step-IsExclusive thread {s} (writes state on at) h = writes-IsExclusive thread s state at h
  Step-IsExclusive thread {s} (leaves on at) h = leave-IsExclusive thread s at h

start-IsExclusive :
    (os : Os Call) (result : ErrorHandler (Unit {0}) GpioError) (name : List ℕ)
    → (init_led os result (construct name)).1 ≡ true
    → IsExclusive os (start os result name)
unfolding init_led construct init do_init init_fresh init_attr init_with_attr conclude owner
    owner_after
start-IsExclusive os result name e = record {
  ready = ground (arith, e);
  alive = refl;
  holds = λ i inside. ground arith;
  flips = ground (arith, e);
  current = λ i b e'. ground arith;
  chosen = λ i state e'. ground arith;
  alternates = refl;
}

pub Reach-IsExclusive :
    {os : Os Call} {name : List ℕ} {s : System}
    → IsErrorChecking os
    → Reach os name s
    → IsExclusive os s
Reach-IsExclusive {os} {name} checks (begins result e) = start-IsExclusive os result name e
Reach-IsExclusive checks (goes thread r step) =
    Step-IsExclusive checks thread step (Reach-IsExclusive checks r)

-- However threads that blink the LED are interleaved, on a mutex that the system keeps as POSIX says: no
-- two of them are inside at once, none terminates the program, and the levels written to the pin
-- alternate, low first.
pub Reach-alternates :
    {os : Os Call} {name : List ℕ} {s : System} (i j : ℕ)
    → IsErrorChecking os
    → Reach os name s
    → i ≢ j
    → ((is_inside (s.pc i) && is_inside (s.pc j)) ≡ false)
      × (s.terminated ≡ false)
      × (s.led.written ≡ levels (length s.led.written))
Reach-alternates {os} {s = s} i j checks r apart =
    let h = Reach-IsExclusive checks r in
    (
      exclusive (is_inside (s.pc i)) (is_inside (s.pc j)) (h.holds i) (h.holds j),
      h.alive,
      h.alternates,
    )
  where
    exclusive :
        (a b : Bool)
        → (a ≡ true → owner os s.led.mutex.calls ≡ some i)
        → (b ≡ true → owner os s.led.mutex.calls ≡ some j)
        → (a && b) ≡ false
    exclusive true true hi hj = absurd (apart (ground (arith, hi refl, hj refl)))
    exclusive true false hi hj = refl
    exclusive false b hi hj = refl
