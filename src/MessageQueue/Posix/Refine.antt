-- ===== src/MessageQueue/Posix/Refine.antt =====
-- What POSIX says of message queues, and the queue of platform/posix_core/message_queue on them.
use enocean_core.Base.{
  ℕ, ap, subst, ◌∙◌, ◌+◌, ◌≤◌, ◌≡◌, refl, sym, arith, List, [], ◌∷◌, ◌++◌, length, if_cases, Option,
  some, none,
}
use enocean_core.Os.{Rc, success, failure}
use enocean_core.MessageQueue.{Timespec}
use enocean_core.MessageQueue.Fifo.{
  IsFifo, appended, removed, Op, run_ops, run_ops-contents, run_ops-capacity,
}
use enocean_core.MessageQueue.Posix.{
  Received, message, not_received, Mq, PosixQueue, is_infinite, deadline, send_result, send_to,
  send_impl, receive_result, receive_from, receive_impl, space_of, free_space_of,
  get_free_space_impl, posix_queue,
}

abbrev pub sent_by : {M : Type 0} → Rc → M → List M
sent_by success m = m ∷ []
sent_by (failure e) m = []

abbrev pub received_by : {M : Type 0} → Received M → List M
received_by (message m) = m ∷ []
received_by (not_received e) = []

-- The documented behaviour: a send that succeeds puts its message behind the others and needs room, a
-- receive that succeeds takes the oldest, one that fails changes nothing.
pub record IsPosixMq {M : Type 0} (mq : Mq M) : Type 0 where
  pub contents : ℕ → mq.Kernel → List M
  pub maxmsg : ℕ → mq.Kernel → ℕ
  pub sends :
      (fd : ℕ) (m : M) (k : mq.Kernel)
      → contents fd (mq.mq_send fd m k).0 ≡ contents fd k ++ sent_by (mq.mq_send fd m k).1 m
  pub timedsends :
      (fd : ℕ) (m : M) (t : Timespec) (k : mq.Kernel)
      → contents fd (mq.mq_timedsend fd m t k).0
        ≡ contents fd k ++ sent_by (mq.mq_timedsend fd m t k).1 m
  pub send_room :
      (fd : ℕ) (m : M) (k : mq.Kernel)
      → length (contents fd k) ≤ maxmsg fd k
      → length (contents fd (mq.mq_send fd m k).0) ≤ maxmsg fd (mq.mq_send fd m k).0
  pub timedsend_room :
      (fd : ℕ) (m : M) (t : Timespec) (k : mq.Kernel)
      → length (contents fd k) ≤ maxmsg fd k
      → length (contents fd (mq.mq_timedsend fd m t k).0) ≤ maxmsg fd (mq.mq_timedsend fd m t k).0
  pub receives :
      (fd : ℕ) (k : mq.Kernel)
      → contents fd k ≡ received_by (mq.mq_receive fd k).1 ++ contents fd (mq.mq_receive fd k).0
  pub timedreceives :
      (fd : ℕ) (t : Timespec) (k : mq.Kernel)
      → contents fd k
        ≡ received_by (mq.mq_timedreceive fd t k).1 ++ contents fd (mq.mq_timedreceive fd t k).0
  pub receive_keeps : (fd : ℕ) (k : mq.Kernel) → maxmsg fd (mq.mq_receive fd k).0 ≡ maxmsg fd k
  pub timedreceive_keeps :
      (fd : ℕ) (t : Timespec) (k : mq.Kernel)
      → maxmsg fd (mq.mq_timedreceive fd t k).0 ≡ maxmsg fd k
  pub attributes :
      (fd max cur : ℕ) (k : mq.Kernel)
      → mq.mq_getattr fd k ≡ some (max, cur)
      → (max ≡ maxmsg fd k) × (cur ≡ length (contents fd k))

appended-send_result : {M : Type 0} (rc : Rc) (m : M) → appended (send_result rc).0 m ≡ sent_by rc m
appended-send_result success m = refl
appended-send_result (failure e) m = refl

removed-receive_result :
    {M : Type 0} (r : Received M) → removed (receive_result r).0 ≡ received_by r
removed-receive_result (message m) = refl
removed-receive_result (not_received e) = refl

module _ {M : Type 0} (mq : Mq M) (law : IsPosixMq mq) where
  -- Of a descriptor, or of none.
  abbrev pub held : Option ℕ → mq.Kernel → List M
  held none k = []
  held (some fd) k = law.contents fd k

  abbrev pub room : Option ℕ → mq.Kernel → ℕ
  room none k = 0
  room (some fd) k = law.maxmsg fd k

  pub send_to-held :
      (mqd : Option ℕ) (m : M) (timeout : ℕ) (s : PosixQueue mq)
      → held mqd (send_to mq mqd m timeout s).0.kernel
        ≡ held mqd s.kernel ++ appended (send_to mq mqd m timeout s).1.0 m
  unfolding send_to
  send_to-held none m timeout s = refl
  send_to-held (some fd) m timeout s =
      if_cases {A = mq.Kernel × Rc}
        (λ r. law.contents fd r.0 ≡ law.contents fd s.kernel ++ appended (send_result r.1).0 m)
        (is_infinite timeout) (λ _. law.sends fd m s.kernel ∙ told (mq.mq_send fd m s.kernel).1)
        (λ _. law.timedsends fd m due s.kernel ∙ told (mq.mq_timedsend fd m due s.kernel).1)
    where
      due : Timespec
      due = deadline mq timeout s.kernel

      told :
          (rc : Rc)
          → law.contents fd s.kernel ++ sent_by rc m
            ≡ law.contents fd s.kernel ++ appended (send_result rc).0 m
      told rc = ap (λ xs. law.contents fd s.kernel ++ xs) (sym (appended-send_result rc m))

  pub send_to-room :
      (mqd : Option ℕ) (m : M) (timeout : ℕ) (s : PosixQueue mq)
      → length (held mqd s.kernel) ≤ room mqd s.kernel
      → length (held mqd (send_to mq mqd m timeout s).0.kernel)
        ≤ room mqd (send_to mq mqd m timeout s).0.kernel
  unfolding send_to
  send_to-room none m timeout s h = h
  send_to-room (some fd) m timeout s h =
      if_cases {A = mq.Kernel × Rc} (λ r. length (law.contents fd r.0) ≤ law.maxmsg fd r.0)
        (is_infinite timeout) (λ _. law.send_room fd m s.kernel h)
        (λ _. law.timedsend_room fd m (deadline mq timeout s.kernel) s.kernel h)

  pub receive_from-held :
      (mqd : Option ℕ) (timeout : ℕ) (s : PosixQueue mq)
      → held mqd s.kernel
        ≡ removed (receive_from mq mqd timeout s).1.0
          ++ held mqd (receive_from mq mqd timeout s).0.kernel
  unfolding receive_from
  receive_from-held none timeout s = refl
  receive_from-held (some fd) timeout s =
      if_cases {A = mq.Kernel × Received M}
        (λ r. law.contents fd s.kernel ≡ removed (receive_result r.1).0 ++ law.contents fd r.0)
        (is_infinite timeout) (λ _. law.receives fd s.kernel ∙ told (mq.mq_receive fd s.kernel))
        (λ _. law.timedreceives fd due s.kernel ∙ told (mq.mq_timedreceive fd due s.kernel))
    where
      due : Timespec
      due = deadline mq timeout s.kernel

      told :
          (r : mq.Kernel × Received M)
          → received_by r.1 ++ law.contents fd r.0
            ≡ removed (receive_result r.1).0 ++ law.contents fd r.0
      told r = ap (λ xs. xs ++ law.contents fd r.0) (sym (removed-receive_result r.1))

  pub receive_from-room :
      (mqd : Option ℕ) (timeout : ℕ) (s : PosixQueue mq)
      → room mqd (receive_from mq mqd timeout s).0.kernel ≡ room mqd s.kernel
  unfolding receive_from
  receive_from-room none timeout s = refl
  receive_from-room (some fd) timeout s =
      if_cases {A = mq.Kernel × Received M} (λ r. law.maxmsg fd r.0 ≡ law.maxmsg fd s.kernel)
        (is_infinite timeout) (λ _. law.receive_keeps fd s.kernel)
        (λ _. law.timedreceive_keeps fd (deadline mq timeout s.kernel) s.kernel)

  space_of-le :
      (fd : ℕ) (k : mq.Kernel) (attr : Option (ℕ × ℕ))
      → mq.mq_getattr fd k ≡ attr
      → length (law.contents fd k) ≤ law.maxmsg fd k
      → space_of attr + length (law.contents fd k) ≤ law.maxmsg fd k
  space_of-le fd k none e h = omega (arith, h)
  space_of-le fd k (some (max, cur)) e h =
      let known = law.attributes fd max cur k e in omega (arith, known.0, known.1, h)

  pub free_space_of-le :
      (mqd : Option ℕ) (s : PosixQueue mq)
      → length (held mqd s.kernel) ≤ room mqd s.kernel
      → free_space_of mq mqd s + length (held mqd s.kernel) ≤ room mqd s.kernel
  unfolding free_space_of
  free_space_of-le none s h = omega arith
  free_space_of-le (some fd) s h = space_of-le fd s.kernel _ refl h

  pub send_to-mqd :
      (mqd : Option ℕ) (m : M) (timeout : ℕ) (s : PosixQueue mq)
      → (send_to mq mqd m timeout s).0.mqd ≡ s.mqd
  unfolding send_to
  send_to-mqd none m timeout s = refl
  send_to-mqd (some fd) m timeout s = refl

  pub receive_from-mqd :
      (mqd : Option ℕ) (timeout : ℕ) (s : PosixQueue mq)
      → (receive_from mq mqd timeout s).0.mqd ≡ s.mqd
  unfolding receive_from
  receive_from-mqd none timeout s = refl
  receive_from-mqd (some fd) timeout s = refl

  abbrev pub posix_queue-IsFifo : IsFifo (posix_queue mq)
  unfolding send_impl receive_impl get_free_space_impl
  posix_queue-IsFifo = record {
    contents = λ s. held s.mqd s.kernel;
    capacity = λ s. room s.mqd s.kernel;
    send_contents = λ m timeout s.
        ap (λ d. held d (send_to mq s.mqd m timeout s).0.kernel) (send_to-mqd s.mqd m timeout s)
        ∙ send_to-held s.mqd m timeout s;
    send_capacity = λ m timeout s h.
        let k = (send_to mq s.mqd m timeout s).0.kernel in
        subst (λ d. length (held d k) ≤ room d k) (sym (send_to-mqd s.mqd m timeout s))
          (send_to-room s.mqd m timeout s h);
    receive_contents = λ timeout s.
        receive_from-held s.mqd timeout s
        ∙ ap
            (λ d.
              removed (receive_from mq s.mqd timeout s).1.0
              ++ held d (receive_from mq s.mqd timeout s).0.kernel)
            (sym (receive_from-mqd s.mqd timeout s));
    receive_capacity = λ timeout s.
        ap (λ d. room d (receive_from mq s.mqd timeout s).0.kernel)
          (receive_from-mqd s.mqd timeout s)
        ∙ receive_from-room s.mqd timeout s;
    free_space = λ s h. free_space_of-le s.mqd s h;
  }

-- The POSIX queue is a bounded FIFO queue, on message queues of the system that do as POSIX says: after any
-- history of sends and receives, whatever their timeouts and results, the messages that were received
-- and those that the queue holds are, in order, those that it held at first and those whose sending
-- succeeded; it holds no more than its capacity, and get_free_space reports no more than the rest.
pub run_ops-posix_queue :
    {M : Type 0} (mq : Mq M) (law : IsPosixMq mq) (ops : List (Op M ℕ)) (s : PosixQueue mq)
    → length (held mq law s.mqd s.kernel) ≤ room mq law s.mqd s.kernel
    → let t = run_ops (posix_queue mq) ops s in
      (t.received ++ held mq law t.state.mqd t.state.kernel ≡ held mq law s.mqd s.kernel ++ t.sent)
      × (get_free_space_impl mq t.state + length (held mq law t.state.mqd t.state.kernel)
          ≤ room mq law t.state.mqd t.state.kernel)
unfolding posix_queue-IsFifo
run_ops-posix_queue mq law ops s h =
    let fifo = posix_queue-IsFifo mq law in
    (
      run_ops-contents (posix_queue mq) fifo ops s,
      fifo.free_space (run_ops (posix_queue mq) ops s).state
          (run_ops-capacity (posix_queue mq) fifo ops s h),
    )
