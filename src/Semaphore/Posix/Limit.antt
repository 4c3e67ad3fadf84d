-- ===== src/Semaphore/Posix/Limit.antt =====
-- The limit of a semaphore (platform/posix_core/semaphore/Semaphore.cpp).
use enocean_core.Base.{ℕ, List, [], ◌∷◌, ◌≡◌, refl, arith, Bool-cases, inl, inr}
use enocean_core.Os.{Os}
use enocean_core.Semaphore.{construct, init, take, give}
use enocean_core.Semaphore.Posix.{
  Call, PosixSemaphore, conclude, init_fresh, init_again, do_init, do_take, do_give,
}
use enocean_core.Semaphore.Posix.Orderly.{Op, inits, inits_again, gives, takes, apply, run_ops}

-- The same semaphore under another limit.
abbrev pub limited : ℕ → PosixSemaphore → PosixSemaphore
limited limit s = record s { count_limit = limit }

apply-limited :
    (os : Os Call) (limit : ℕ) (s : PosixSemaphore) (op : Op)
    → ((apply os (limited limit s) op).0 ≡ limited limit (apply os s op).0)
      × ((apply os (limited limit s) op).1 ≡ (apply os s op).1)
unfolding apply init take give do_init init_fresh init_again conclude do_take do_give
apply-limited os limit s inits = (ground arith, ground arith)
apply-limited os limit s inits_again = (ground arith, ground arith)
apply-limited os limit s (takes timed) = (ground arith, ground arith)
apply-limited os limit s gives = (ground arith, ground arith)

run_ops-limited :
    (os : Os Call) (limit : ℕ) (s : PosixSemaphore) (ops : List Op)
    → run_ops os (limited limit s) ops ≡ limited limit (run_ops os s ops)
unfolding run_ops
run_ops-limited os limit s [] = refl
run_ops-limited os limit s (op ∷ ops) =
    let e = apply-limited os limit s op in
    rw (e.0, e.1)
      (elim (Bool-cases (apply os s op).1) [
        | inl on ↦ rw on (run_ops-limited os limit (apply os s op).0 ops)
        | inr off ↦ rw off refl
      ])

-- In any history, and whatever the system returns, the limit of a POSIX semaphore changes nothing: under
-- any two limits the same calls are made, with the same counts, and only the limit itself differs.
pub run_ops-construct :
    (os : Os Call) (name : List ℕ) (initial_count limit other : ℕ) (ops : List Op)
    → run_ops os (construct name initial_count limit) ops
      ≡ record (run_ops os (construct name initial_count other) ops) { count_limit = limit }
unfolding construct
run_ops-construct os name initial_count limit other ops =
    run_ops-limited os limit (construct name initial_count other) ops
