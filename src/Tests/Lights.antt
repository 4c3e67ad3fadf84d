-- ===== src/Tests/Lights.antt =====
-- Threads that blink a LED, on a mutex that keeps its owner.
use enocean_core.Base.{
  ℕ, ◌≡◌, ◌&&◌, refl, sym, ◌∙◌, arith, true, false, List, [], ◌∷◌, length, Option, some, none, ◌==◌,
  if◌then◌else◌,
}
use enocean_core.ErrorHandler.{ErrorHandler}
use enocean_core.Os.{Rc, success, failure, ebusy, eperm, Os}
use enocean_core.Mutex.{construct, construct_locker, lock, init}
use enocean_core.Mutex.Posix.{
  Call, mutex_init, mutex_lock, mutex_timedlock, mutex_unlock, do_init, do_lock,
}
use enocean_core.Mutex.Posix.Owner.{owner, owner_after, IsErrorChecking}
use enocean_core.Board.Led.{init_led}
use enocean_core.Board.Led.Threads.{System, start, enter, enters, Reach, begins, goes}
use enocean_core.Board.Led.Exclusive.{is_inside, levels, Reach-alternates}
use enocean_core.Board.Led.Progress.{CanLeave, Reach-CanLeave}
use enocean_core.Tests.System.{led_name}

-- Who has the mutex after a call that may be refused.
abbrev taken : ℕ → Option ℕ → Option ℕ
taken thread none = some thread
taken thread (some other) = some other

abbrev left : ℕ → Option ℕ → Option ℕ
left thread none = none
left thread (some other) = if other == thread then none else some other

abbrev holder : List Call → Option ℕ
holder [] = none
holder (mutex_init ∷ calls) = none
holder (mutex_lock thread ∷ calls) = taken thread (holder calls)
holder (mutex_timedlock thread ∷ calls) = taken thread (holder calls)
holder (mutex_unlock thread ∷ calls) = left thread (holder calls)
holder (c ∷ calls) = holder calls

abbrev take_answer : Option ℕ → Rc
take_answer none = success
take_answer (some other) = failure ebusy

abbrev leave_answer : ℕ → Option ℕ → Rc
leave_answer thread none = failure eperm
leave_answer thread (some other) = if other == thread then success else failure eperm

abbrev keeper : Os Call
keeper (mutex_lock thread ∷ calls) = take_answer (holder calls)
keeper (mutex_timedlock thread ∷ calls) = take_answer (holder calls)
keeper (mutex_unlock thread ∷ calls) = leave_answer thread (holder calls)
keeper calls = success

locked :
    (thread : ℕ) (h : Option ℕ)
    → (rc : Rc → Option ℕ → Option ℕ) → (rc success none ≡ some thread)
    → ((other : ℕ) → rc (failure ebusy) (some other) ≡ some other)
    → rc (take_answer h) h ≡ taken thread h
locked thread none rc e k = e
locked thread (some other) rc e k = k other

unlocked :
    (thread : ℕ) (h : Option ℕ)
    → owner_after (mutex_unlock thread) (leave_answer thread h) h ≡ left thread h
unfolding owner_after
unlocked thread none = refl
unlocked thread (some other) = ground arith

owner-keeper : (calls : List Call) → owner keeper calls ≡ holder calls
unfolding owner owner_after
owner-keeper [] = refl
owner-keeper (mutex_init ∷ calls) = refl
owner-keeper (mutex_lock thread ∷ calls) =
    rw (owner-keeper calls)
      (locked thread (holder calls) (owner_after (mutex_lock thread)) refl (λ other. refl))
owner-keeper (mutex_timedlock thread ∷ calls) =
    rw (owner-keeper calls)
      (locked thread (holder calls) (owner_after (mutex_timedlock thread)) refl (λ other. refl))
owner-keeper (mutex_unlock thread ∷ calls) =
    rw (owner-keeper calls) (unlocked thread (holder calls))
owner-keeper (c ∷ calls) = owner-keeper calls

free_of : (h : Option ℕ) → take_answer h ≡ success → h ≡ none
free_of none e = refl
free_of (some other) e = cc

keeper-IsErrorChecking : IsErrorChecking keeper
keeper-IsErrorChecking = record {
  locks = λ thread calls e. owner-keeper calls ∙ free_of (holder calls) e;
  unlocks = λ thread calls e.
      let own : holder calls ≡ some thread = sym (owner-keeper calls) ∙ e in rw own (ground arith);
}

-- The first thread has gone in.
abbrev one_inside : System
one_inside = enter keeper 0 (start keeper (ErrorHandler.value tt) led_name)

one_inside-Reach : Reach keeper led_name one_inside
unfolding init_led construct init do_init
one_inside-Reach = goes 0 (begins (ErrorHandler.value tt) refl) (enters refl refl)

Reach-alternates_example :
    ((is_inside (one_inside.pc 0) && is_inside (one_inside.pc 1)) ≡ false)
    × (one_inside.terminated ≡ false)
    × (one_inside.led.written ≡ levels (length one_inside.led.written))
Reach-alternates_example =
    Reach-alternates 0 1 keeper-IsErrorChecking one_inside-Reach (λ e. absurd (omega (arith, e)))

one_inside-is_inside : is_inside (one_inside.pc 0) ≡ true
unfolding init_led construct init do_init construct_locker lock do_lock
one_inside-is_inside = refl

Reach-CanLeave_example : CanLeave keeper 0 one_inside
Reach-CanLeave_example =
    Reach-CanLeave 0 keeper-IsErrorChecking one_inside-Reach one_inside-is_inside
