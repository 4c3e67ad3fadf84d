-- ===== src/MessageQueue/Zephyr/Refine.antt =====
-- What Zephyr says of a k_msgq, and the queue of platform/zephyr_core/message_queue on it.
use enocean_core.Base.{
  ℕ, ap, ◌∙◌, ◌+◌, ◌≤◌, ◌≡◌, refl, sym, arith, List, [], ◌∷◌, ◌++◌, length, not, if_cases,
}
use mathlib.Core.List.{append-nil}
use enocean_core.Os.{Rc, success, failure, eagain}
use enocean_core.MessageQueue.Fifo.{
  Result, IsFifo, appended, removed, Op, run_ops, run_ops-contents, run_ops-capacity,
}
use enocean_core.MessageQueue.Zephyr.{
  Received, message, not_received, KMsgq, ZephyrQueue, send_result, send_impl, receive_result,
  receive_impl, get_free_space_impl, zephyr_queue,
}

abbrev pub put_by : {M : Type 0} → Rc → M → List M
put_by success m = m ∷ []
put_by (failure e) m = []

abbrev pub got_by : {M : Type 0} → Received M → List M
got_by (message m) = m ∷ []
got_by (not_received e) = []

-- The documented behaviour: a put that succeeds puts its message behind the others and needs room, a get
-- that succeeds takes the oldest, one that fails changes nothing.
pub record IsKMsgq {M Timeout : Type 0} (mq : KMsgq M Timeout) : Type 0 where
  pub contents : mq.Kernel → List M
  pub max_msgs : mq.Kernel → ℕ
  pub puts :
      (m : M) (t : Timeout) (k : mq.Kernel)
      → contents (mq.k_msgq_put m t k).0 ≡ contents k ++ put_by (mq.k_msgq_put m t k).1 m
  pub put_room :
      (m : M) (t : Timeout) (k : mq.Kernel)
      → length (contents k) ≤ max_msgs k
      → length (contents (mq.k_msgq_put m t k).0) ≤ max_msgs (mq.k_msgq_put m t k).0
  pub gets :
      (t : Timeout) (k : mq.Kernel)
      → contents k ≡ got_by (mq.k_msgq_get t k).1 ++ contents (mq.k_msgq_get t k).0
  pub get_keeps : (t : Timeout) (k : mq.Kernel) → max_msgs (mq.k_msgq_get t k).0 ≡ max_msgs k
  pub free :
      (k : mq.Kernel)
      → length (contents k) ≤ max_msgs k
      → mq.k_msgq_num_free_get k + length (contents k) ≡ max_msgs k

appended-send_result : {M : Type 0} (rc : Rc) (m : M) → appended (send_result rc).0 m ≡ put_by rc m
appended-send_result success m = refl
appended-send_result (failure eagain) m = refl
appended-send_result (failure e) m = refl

removed-receive_result : {M : Type 0} (r : Received M) → removed (receive_result r).0 ≡ got_by r
removed-receive_result (message m) = refl
removed-receive_result (not_received eagain) = refl
removed-receive_result (not_received e) = refl

module _ {M Timeout : Type 0} (mq : KMsgq M Timeout) (law : IsKMsgq mq) where
  pub send_impl-contents :
      (m : M) (timeout : Timeout) (s : ZephyrQueue mq)
      → law.contents (send_impl mq m timeout s).0.kernel
        ≡ law.contents s.kernel ++ appended (send_impl mq m timeout s).1.0 m
  unfolding send_impl
  send_impl-contents m timeout s =
      let rc = (mq.k_msgq_put m timeout s.kernel).1 in
      if_cases {A = ZephyrQueue mq × Result (Unit {0})}
        (λ r. law.contents r.0.kernel ≡ law.contents s.kernel ++ appended r.1.0 m)
        (not s.initialized) (λ _. sym (append-nil (law.contents s.kernel)))
        (λ _.
          law.puts m timeout s.kernel
          ∙ ap (λ xs. law.contents s.kernel ++ xs) (sym (appended-send_result rc m)))

  pub send_impl-room :
      (m : M) (timeout : Timeout) (s : ZephyrQueue mq)
      → length (law.contents s.kernel) ≤ law.max_msgs s.kernel
      → length (law.contents (send_impl mq m timeout s).0.kernel)
        ≤ law.max_msgs (send_impl mq m timeout s).0.kernel
  unfolding send_impl
  send_impl-room m timeout s h =
      if_cases {A = ZephyrQueue mq × Result (Unit {0})}
        (λ r. length (law.contents r.0.kernel) ≤ law.max_msgs r.0.kernel) (not s.initialized)
        (λ _. h) (λ _. law.put_room m timeout s.kernel h)

  pub receive_impl-contents :
      (timeout : Timeout) (s : ZephyrQueue mq)
      → law.contents s.kernel
        ≡ removed (receive_impl mq timeout s).1.0
          ++ law.contents (receive_impl mq timeout s).0.kernel
  unfolding receive_impl
  receive_impl-contents timeout s =
      let got = mq.k_msgq_get timeout s.kernel in
      if_cases {A = ZephyrQueue mq × Result M}
        (λ r. law.contents s.kernel ≡ removed r.1.0 ++ law.contents r.0.kernel) (not s.initialized)
        (λ _. refl)
        (λ _.
          law.gets timeout s.kernel
          ∙ ap (λ xs. xs ++ law.contents got.0) (sym (removed-receive_result got.1)))

  pub receive_impl-room :
      (timeout : Timeout) (s : ZephyrQueue mq)
      → law.max_msgs (receive_impl mq timeout s).0.kernel ≡ law.max_msgs s.kernel
  unfolding receive_impl
  receive_impl-room timeout s =
      if_cases {A = ZephyrQueue mq × Result M}
        (λ r. law.max_msgs r.0.kernel ≡ law.max_msgs s.kernel) (not s.initialized) (λ _. refl)
        (λ _. law.get_keeps timeout s.kernel)

  pub get_free_space_impl-le :
      (s : ZephyrQueue mq)
      → length (law.contents s.kernel) ≤ law.max_msgs s.kernel
      → get_free_space_impl mq s + length (law.contents s.kernel) ≤ law.max_msgs s.kernel
  unfolding get_free_space_impl
  get_free_space_impl-le s h = ground (arith, law.free s.kernel h)

  abbrev pub zephyr_queue-IsFifo : IsFifo (zephyr_queue mq)
  zephyr_queue-IsFifo = record {
    contents = λ s. law.contents s.kernel;
    capacity = λ s. law.max_msgs s.kernel;
    send_contents = send_impl-contents;
    send_capacity = send_impl-room;
    receive_contents = receive_impl-contents;
    receive_capacity = receive_impl-room;
    free_space = get_free_space_impl-le;
  }

-- The Zephyr queue is a bounded FIFO queue, on a kernel whose queues do as Zephyr says: after any history of
-- sends and receives, whatever their timeouts and results, the messages that were received and those
-- that the queue holds are, in order, those that it held at first and those whose sending succeeded;
-- it holds no more than its capacity, and get_free_space reports no more than the rest.
pub run_ops-zephyr_queue :
    {M Timeout : Type 0} (mq : KMsgq M Timeout) (law : IsKMsgq mq) (ops : List (Op M Timeout))
    (s : ZephyrQueue mq)
    → length (law.contents s.kernel) ≤ law.max_msgs s.kernel
    → let t = run_ops (zephyr_queue mq) ops s in
      (t.received ++ law.contents t.state.kernel ≡ law.contents s.kernel ++ t.sent)
      × (get_free_space_impl mq t.state + length (law.contents t.state.kernel)
          ≤ law.max_msgs t.state.kernel)
run_ops-zephyr_queue mq law ops s h =
    let fifo = zephyr_queue-IsFifo mq law in
    (
      run_ops-contents (zephyr_queue mq) fifo ops s,
      fifo.free_space (run_ops (zephyr_queue mq) ops s).state
          (run_ops-capacity (zephyr_queue mq) fifo ops s h),
    )
