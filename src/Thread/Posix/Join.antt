-- ===== src/Thread/Posix/Join.antt =====
-- The loop of os_destroy (platform/posix_core/thread/Thread.cpp) and the destructor around it.
use enocean_core.Base.{ℕ, zero, suc, ◌<◌, true, false, List, ◌∷◌, ◌≡◌, refl, arith, some}
use enocean_core.Os.{Os, Rc, success, failure, eintr}
use enocean_core.Thread.{conclude_destroy, destroy}
use enocean_core.Thread.Posix.{
  Call, thread_join, PosixThread, is_eintr, conclude_join, os_destroy, destruct,
}

-- The calls with that many joins behind them.
abbrev pub joins : ℕ → List Call → List Call
joins zero calls = calls
joins (suc n) calls = joins n (thread_join ∷ calls)

-- The system interrupts that many joins.
abbrev pub Interrupts : Os Call → ℕ → List Call → Type 0
Interrupts os k calls = (j : ℕ) → j < k → os (joins (suc j) calls) ≡ failure eintr

-- If the system interrupts a number of joins in a row and then answers, and the fuel is greater than that
-- number, then os_destroy returns, with that answer, after one join more than were interrupted.
pub os_destroy-conclude_join :
    (os : Os Call) (k fuel : ℕ) (rc : Rc) (t : PosixThread)
    → Interrupts os k t.calls
    → os (joins (suc k) t.calls) ≡ rc
    → is_eintr rc ≡ false
    → k < fuel
    → os_destroy os fuel t ≡ conclude_join (some rc) (record t { calls = joins (suc k) t.calls })
unfolding os_destroy
os_destroy-conclude_join os k zero rc t i e answers enough = absurd (omega arith)
os_destroy-conclude_join os zero (suc fuel) rc t i e answers enough =
    let first : is_eintr (os (thread_join ∷ t.calls)) ≡ false = rw e answers in rw (first, e) refl
os_destroy-conclude_join os (suc k) (suc fuel) rc t i e answers enough = rw (i 0 (omega arith)) (
    os_destroy-conclude_join os k fuel rc (record t { calls = thread_join ∷ t.calls })
      (λ j under. i (suc j) (omega arith)) e answers (omega arith))

-- If the system interrupts a number of joins in a row and then joins, and the fuel is greater than that
-- number, then the destructor of an active thread object ends, with one join more than were
-- interrupted, and leaves the object without a thread.
pub destruct-inactive :
    (os : Os Call) (k fuel : ℕ) (t : PosixThread)
    → t.active ≡ true
    → Interrupts os k t.calls
    → os (joins (suc k) t.calls) ≡ success
    → k < fuel
    → ((destruct os fuel t).active ≡ false) × ((destruct os fuel t).calls ≡ joins (suc k) t.calls)
unfolding destruct destroy conclude_destroy conclude_join
destruct-inactive os k fuel t on i joined enough =
    let e = os_destroy-conclude_join os k fuel success t i joined refl enough in
    (ground (arith, on, e), ground (arith, on, e))
