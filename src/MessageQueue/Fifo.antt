-- ===== src/MessageQueue/Fifo.antt =====
-- platform/common/imessage_queue/IMessageQueue.hpp: the front of a message queue as an interface, and
-- what a client may rely on. A message that is received stands in the result.
use enocean_core.Base.{
  ℕ, ◌+◌, ◌≤◌, ◌≡◌, sym, ap, ◌∙◌, arith, List, [], ◌∷◌, ◌++◌, length, length-append, ◌==◌,
  if◌then◌else◌,
}
use mathlib.Core.List.{append_assoc, append-nil}
use enocean_core.ErrorHandler.{ErrorHandler, Logged, of_error}
use enocean_core.Errors.MessageQueue.{MessageQueueError}
use enocean_core.Errors.MessageQueue

abbrev pub Result : Type 0 → Type 0
Result A = Logged (ErrorHandler A MessageQueueError)

-- The check of both `init` in front of init_impl.
unfoldable pub init : {S : Type 0} → (ℕ → S → S × Result (Unit {0})) → ℕ → S → S × Result (Unit {0})
init init_impl capacity s =
    let opened = init_impl capacity s in
    if capacity == 0
    then (
      s,
      of_error ⦃t = MessageQueue.traits⦄ MessageQueueError.invalid_parameter
          "Capacity cannot be zero",
    )
    else opened

-- The operations that a derived class gives to a queue of `M` with timeouts in `Timeout`.
pub record QueueImpl (M Timeout : Type 0) : Type 1 where
  pub State : Type 0
  pub send_impl : M → Timeout → State → State × Result (Unit {0})
  pub receive_impl : Timeout → State → State × Result M
  pub get_free_space_impl : State → ℕ

abbrev pub appended : {M : Type 0} → ErrorHandler (Unit {0}) MessageQueueError → M → List M
appended (ErrorHandler.value v) m = m ∷ []
appended (ErrorHandler.error e) m = []

abbrev pub removed : {M : Type 0} → ErrorHandler M MessageQueueError → List M
removed (ErrorHandler.value m) = m ∷ []
removed (ErrorHandler.error e) = []

-- A bounded queue, seen through its contents, the oldest first.
pub record IsFifo {M Timeout : Type 0} (q : QueueImpl M Timeout) : Type 1 where
  pub contents : q.State → List M
  pub capacity : q.State → ℕ
  pub send_contents :
      (m : M) (timeout : Timeout) (s : q.State)
      → contents (q.send_impl m timeout s).0
        ≡ contents s ++ appended (q.send_impl m timeout s).1.0 m
  pub send_capacity :
      (m : M) (timeout : Timeout) (s : q.State)
      → length (contents s) ≤ capacity s
      → length (contents (q.send_impl m timeout s).0) ≤ capacity (q.send_impl m timeout s).0
  pub receive_contents :
      (timeout : Timeout) (s : q.State)
      → contents s ≡ removed (q.receive_impl timeout s).1.0 ++ contents (q.receive_impl timeout s).0
  pub receive_capacity :
      (timeout : Timeout) (s : q.State) → capacity (q.receive_impl timeout s).0 ≡ capacity s
  pub free_space :
      (s : q.State)
      → length (contents s) ≤ capacity s
      → q.get_free_space_impl s + length (contents s) ≤ capacity s

-- IMessageQueue::send and receive of a client.
pub data Op (M Timeout : Type 0) : Type 0 where
  sends : M → Timeout → Op M Timeout
  receives : Timeout → Op M Timeout

-- The queue after a history, with the messages whose sending was reported as a success, and those that
-- were received, the oldest first.
pub record Traffic (S M : Type 0) : Type 0 where
  pub state : S
  pub sent : List M
  pub received : List M

module _ {M Timeout : Type 0} (q : QueueImpl M Timeout) where
  unfoldable pub run_ops : List (Op M Timeout) → q.State → Traffic q.State M
  run_ops [] s = record { state = s; sent = []; received = [] }
  run_ops (sends m timeout ∷ ops) s =
      let (s', result) = q.send_impl m timeout s in
      let rest = run_ops ops s' in record rest { sent = appended result.0 m ++ rest.sent }
  run_ops (receives timeout ∷ ops) s =
      let (s', result) = q.receive_impl timeout s in
      let rest = run_ops ops s' in record rest { received = removed result.0 ++ rest.received }

module _ {M Timeout : Type 0} (q : QueueImpl M Timeout) (fifo : IsFifo q) where
  open fifo use {contents, capacity}

  pub run_ops-contents :
      (ops : List (Op M Timeout)) (s : q.State)
      → (run_ops q ops s).received ++ contents (run_ops q ops s).state
        ≡ contents s ++ (run_ops q ops s).sent
  unfolding run_ops
  run_ops-contents [] s = sym (append-nil (contents s))
  run_ops-contents (sends m timeout ∷ ops) s =
      let s' = (q.send_impl m timeout s).0 in
      let new = appended (q.send_impl m timeout s).1.0 m in
      run_ops-contents ops s'
      ∙ ap (λ xs. xs ++ (run_ops q ops s').sent) (fifo.send_contents m timeout s)
      ∙ append_assoc (contents s) new (run_ops q ops s').sent
  run_ops-contents (receives timeout ∷ ops) s =
      let s' = (q.receive_impl timeout s).0 in
      let old = removed (q.receive_impl timeout s).1.0 in
      append_assoc old (run_ops q ops s').received (contents (run_ops q ops s').state)
      ∙ ap (λ xs. old ++ xs) (run_ops-contents ops s')
      ∙ sym (append_assoc old (contents s') (run_ops q ops s').sent)
      ∙ ap (λ xs. xs ++ (run_ops q ops s').sent) (sym (fifo.receive_contents timeout s))

  pub run_ops-capacity :
      (ops : List (Op M Timeout)) (s : q.State)
      → length (contents s) ≤ capacity s
      → length (contents (run_ops q ops s).state) ≤ capacity (run_ops q ops s).state
  unfolding run_ops
  run_ops-capacity [] s h = h
  run_ops-capacity (sends m timeout ∷ ops) s h =
      run_ops-capacity ops (q.send_impl m timeout s).0 (fifo.send_capacity m timeout s h)
  run_ops-capacity (receives timeout ∷ ops) s h =
      let s' = (q.receive_impl timeout s).0 in
      let old = removed (q.receive_impl timeout s).1.0 in
      run_ops-capacity ops s' (
        omega (
          arith,
          fifo.receive_capacity timeout s,
          ap length (fifo.receive_contents timeout s),
          length-append old (contents s'),
          h,
        ))
