-- ===== src/Tests/Queues.antt =====
-- Message queues of two messages at most, on concrete inputs.
use enocean_core.Base.{
  ℕ, ◌+◌, ◌-◌, ◌≤◌, ◌≡◌, refl, sym, true, arith, List, [], ◌∷◌, ◌++◌, length, Option, some,
}
use mathlib.Core.List.{append-nil}
use enocean_core.Os.{Rc, success, failure, eagain}
use enocean_core.MessageQueue.Fifo.{sends, receives, run_ops, Op}
use enocean_core.MessageQueue.Posix.{
  Received, message, not_received, descriptor, Mq, PosixQueue, posix_queue, get_free_space_impl,
}
use enocean_core.MessageQueue.Posix.Refine.{
  IsPosixMq, sent_by, received_by, held, room, run_ops-posix_queue,
}
use enocean_core.MessageQueue.Zephyr.{KMsgq, ZephyrQueue, zephyr_queue}
use enocean_core.MessageQueue.Zephyr
use enocean_core.MessageQueue.Zephyr.Refine.{IsKMsgq, put_by, got_by, run_ops-zephyr_queue}

abbrev push : ℕ → List ℕ → List ℕ × Rc
push m (x ∷ y ∷ k) = (x ∷ y ∷ k, failure eagain)
push m k = (k ++ m ∷ [], success)

abbrev pop : List ℕ → List ℕ × Received ℕ
pop [] = ([], not_received eagain)
pop (x ∷ k) = (k, message x)

abbrev attr_of : ℕ → Option (ℕ × ℕ)
attr_of n = some (2, n)

abbrev a_system : Mq ℕ
a_system = record {
  Kernel = List ℕ;
  mq_open = λ name capacity k. (k, descriptor 3);
  mq_send = λ fd m k. push m k;
  mq_timedsend = λ fd m due k. push m k;
  mq_receive = λ fd k. pop k;
  mq_timedreceive = λ fd due k. pop k;
  mq_getattr = λ fd k. attr_of (length k);
  mq_close = λ fd k. k;
  mq_unlink = λ name k. k;
  clock = λ k. record { tv_sec = 0; tv_nsec = 0 };
  time_max = 1000;
}

push-sent_by : (m : ℕ) (k : List ℕ) → (push m k).0 ≡ k ++ sent_by (push m k).1 m
push-sent_by m [] = refl
push-sent_by m (x ∷ []) = refl
push-sent_by m (x ∷ y ∷ k) = sym (append-nil (x ∷ y ∷ k))

push-length : (m : ℕ) (k : List ℕ) → length k ≤ 2 → length (push m k).0 ≤ 2
push-length m [] h = omega arith
push-length m (x ∷ []) h = omega arith
push-length m (x ∷ y ∷ k) h = h

pop-received_by : (k : List ℕ) → k ≡ received_by (pop k).1 ++ (pop k).0
pop-received_by [] = refl
pop-received_by (x ∷ k) = refl

same_attributes : (max cur n : ℕ) → attr_of n ≡ some (max, cur) → (max ≡ 2) × (cur ≡ n)
same_attributes max cur n e = (ground (arith, e), ground (arith, e))

abbrev a_system-IsPosixMq : IsPosixMq a_system
a_system-IsPosixMq = record {
  contents = λ fd k. k;
  maxmsg = λ fd k. 2;
  sends = λ fd m k. push-sent_by m k;
  timedsends = λ fd m due k. push-sent_by m k;
  send_room = λ fd m k h. push-length m k h;
  timedsend_room = λ fd m due k h. push-length m k h;
  receives = λ fd k. pop-received_by k;
  timedreceives = λ fd due k. pop-received_by k;
  receive_keeps = λ fd k. refl;
  timedreceive_keeps = λ fd due k. refl;
  attributes = λ fd max cur k e. same_attributes max cur (length k) e;
}

abbrev traffic : List (Op ℕ ℕ)
traffic = sends 7 0 ∷ sends 8 100 ∷ sends 9 1 ∷ receives 0 ∷ sends 10 5 ∷ []

abbrev a_queue : PosixQueue a_system
a_queue = record { queue_name = []; mqd = some 3; kernel = [] }

run_ops-posix_queue_example :
    let t = run_ops (posix_queue a_system) traffic a_queue in
    (t.received ++ held a_system a_system-IsPosixMq t.state.mqd t.state.kernel
      ≡ held a_system a_system-IsPosixMq (some 3) [] ++ t.sent)
    × (get_free_space_impl a_system t.state
          + length (held a_system a_system-IsPosixMq t.state.mqd t.state.kernel)
        ≤ room a_system a_system-IsPosixMq t.state.mqd t.state.kernel)
run_ops-posix_queue_example =
    run_ops-posix_queue a_system a_system-IsPosixMq traffic a_queue (omega arith)

abbrev get : List ℕ → List ℕ × Zephyr.Received ℕ
get [] = ([], Zephyr.not_received eagain)
get (x ∷ k) = (k, Zephyr.message x)

abbrev a_kernel : KMsgq ℕ ℕ
a_kernel = record {
  Kernel = List ℕ;
  k_msgq_init = λ capacity k. [];
  k_msgq_put = λ m timeout k. push m k;
  k_msgq_get = λ timeout k. get k;
  k_msgq_num_free_get = λ k. 2 - length k;
}

push-put_by : (m : ℕ) (k : List ℕ) → (push m k).0 ≡ k ++ put_by (push m k).1 m
push-put_by m [] = refl
push-put_by m (x ∷ []) = refl
push-put_by m (x ∷ y ∷ k) = sym (append-nil (x ∷ y ∷ k))

get-got_by : (k : List ℕ) → k ≡ got_by (get k).1 ++ (get k).0
get-got_by [] = refl
get-got_by (x ∷ k) = refl

abbrev a_kernel-IsKMsgq : IsKMsgq a_kernel
a_kernel-IsKMsgq = record {
  contents = λ k. k;
  max_msgs = λ k. 2;
  puts = λ m timeout k. push-put_by m k;
  put_room = λ m timeout k h. push-length m k h;
  gets = λ timeout k. get-got_by k;
  get_keeps = λ timeout k. refl;
  free = λ k h. omega (arith, h);
}

abbrev a_zephyr_queue : ZephyrQueue a_kernel
a_zephyr_queue = record { initialized = true; kernel = [] }

run_ops-zephyr_queue_example :
    let t = run_ops (zephyr_queue a_kernel) traffic a_zephyr_queue in
    (t.received ++ t.state.kernel ≡ [] ++ t.sent)
    × (Zephyr.get_free_space_impl a_kernel t.state + length t.state.kernel ≤ 2)
run_ops-zephyr_queue_example =
    run_ops-zephyr_queue a_kernel a_kernel-IsKMsgq traffic a_zephyr_queue (omega arith)
