-- ===== src/MessageQueue/Posix.antt =====
-- platform/posix_core/message_queue/MessageQueue.ipp and MessageQueue.hpp. The message queues of the
-- system are a parameter.
pub mod Refine
use enocean_core.Base.{
  ℕ, ◌-◌, ◌^◌, Bool, true, false, not, ◌||◌, List, get_or, Option, some, none, ◌==◌, if◌then◌else◌,
}
use enocean_core.ErrorHandler.{ErrorHandler, of_value, of_error}
use enocean_core.Errors.MessageQueue.{MessageQueueError}
use enocean_core.Errors.MessageQueue
use enocean_core.Os.{
  Errno, einval, ebadf, enomem, enospc, emfile, enfile, etimedout, eintr, eagain, eacces, eexist,
  Rc, success, failure,
}
use enocean_core.PlatformName.{copy_name}
use enocean_core.MessageQueue.{Timespec, ms_to_timespec}
use enocean_core.MessageQueue.Fifo.{Result, QueueImpl}

pub data Opened : Type 0 where
  descriptor : ℕ → Opened
  not_opened : Errno → Opened

pub data Received (M : Type 0) : Type 0 where
  message : M → Received M
  not_received : Errno → Received M

-- The queues of the system, for messages of one type; all are sent with priority 0. mq_getattr gives
-- `mq_maxmsg` and `mq_curmsgs`.
pub record Mq (M : Type 0) : Type 1 where
  pub Kernel : Type 0
  pub mq_open : List ℕ → ℕ → Kernel → Kernel × Opened
  pub mq_send : ℕ → M → Kernel → Kernel × Rc
  pub mq_timedsend : ℕ → M → Timespec → Kernel → Kernel × Rc
  pub mq_receive : ℕ → Kernel → Kernel × Received M
  pub mq_timedreceive : ℕ → Timespec → Kernel → Kernel × Received M
  pub mq_getattr : ℕ → Kernel → Option (ℕ × ℕ)
  pub mq_close : ℕ → Kernel → Kernel
  pub mq_unlink : List ℕ → Kernel → Kernel
  pub clock : Kernel → Timespec
  pub time_max : ℕ

unfoldable pub errno_to_error : Errno → MessageQueueError
errno_to_error einval = MessageQueueError.invalid_parameter
errno_to_error ebadf = MessageQueueError.invalid_parameter
errno_to_error enomem = MessageQueueError.insufficient_memory
errno_to_error enospc = MessageQueueError.resource_limit_exceeded
errno_to_error emfile = MessageQueueError.resource_limit_exceeded
errno_to_error enfile = MessageQueueError.resource_limit_exceeded
errno_to_error etimedout = MessageQueueError.timeout
errno_to_error eintr = MessageQueueError.interrupted
errno_to_error eagain = MessageQueueError.queue_full
errno_to_error eacces = MessageQueueError.permission_denied
errno_to_error eexist = MessageQueueError.already_exists
errno_to_error _ = MessageQueueError.unknown

-- `mqd` is `none` for -1.
pub record PosixQueue {M : Type 0} (mq : Mq M) : Type 0 where
  pub queue_name : List ℕ
  pub mqd : Option ℕ
  pub kernel : mq.Kernel

abbrev pub is_infinite : ℕ → Bool
is_infinite timeout_ms = timeout_ms == 0 || timeout_ms == 0xFFFFFFFF

abbrev pub send_result : Rc → Result (Unit {0})
send_result success = of_value tt
send_result (failure e) =
    of_error ⦃t = MessageQueue.traits⦄ (errno_to_error e) "mq_send/mq_timedsend failed"

abbrev pub receive_result : {M : Type 0} → Received M → Result M
receive_result (message msg) = of_value msg
receive_result (not_received e) =
    of_error ⦃t = MessageQueue.traits⦄ (errno_to_error e) "mq_receive/mq_timedreceive failed"

abbrev pub space_of : Option (ℕ × ℕ) → ℕ
space_of none = 0
space_of (some attr) = attr.0 - attr.1

module _ {M : Type 0} (mq : Mq M) where
  unfoldable pub construct : List ℕ → mq.Kernel → PosixQueue mq
  construct name kernel = record { queue_name = copy_name name; mqd = none; kernel = kernel }

  unfoldable pub conclude_open : Opened → PosixQueue mq → PosixQueue mq × Result (Unit {0})
  conclude_open (descriptor fd) q = (record q { mqd = some fd }, of_value tt)
  conclude_open (not_opened e) q = (
    record q { mqd = none },
    of_error ⦃t = MessageQueue.traits⦄ (errno_to_error e) "mq_open failed",
  )

  unfoldable pub init_impl : ℕ → PosixQueue mq → PosixQueue mq × Result (Unit {0})
  unfolding conclude_open
  init_impl capacity q =
      let (kernel, opened) = mq.mq_open q.queue_name capacity q.kernel in
      if get_or q.queue_name 0 0 == 0
      then (
        q,
        of_error ⦃t = MessageQueue.traits⦄ MessageQueueError.invalid_parameter
            "Queue name is empty",
      )
      else if not (get_or q.queue_name 0 0 == b'/')
      then (
        q,
        of_error ⦃t = MessageQueue.traits⦄ MessageQueueError.invalid_parameter
            "Queue name must start with '/'",
      )
      else conclude_open opened (record q { kernel = kernel })

  abbrev pub deadline : ℕ → mq.Kernel → Timespec
  deadline timeout_ms kernel = ms_to_timespec mq.time_max (mq.clock kernel) timeout_ms

  -- The send on a descriptor.
  unfoldable pub send_to : Option ℕ → M → ℕ → PosixQueue mq → PosixQueue mq × Result (Unit {0})
  send_to none msg timeout_ms q = (
    q,
    of_error ⦃t = MessageQueue.traits⦄ MessageQueueError.invalid_queue "Queue not initialized",
  )
  send_to (some fd) msg timeout_ms q =
      let (kernel, result) =
        if is_infinite timeout_ms
        then mq.mq_send fd msg q.kernel
        else mq.mq_timedsend fd msg (deadline timeout_ms q.kernel) q.kernel in
      (record q { kernel = kernel }, send_result result)

  unfoldable pub send_impl : M → ℕ → PosixQueue mq → PosixQueue mq × Result (Unit {0})
  unfolding send_to
  send_impl msg timeout_ms q = send_to q.mqd msg timeout_ms q

  unfoldable pub receive_from : Option ℕ → ℕ → PosixQueue mq → PosixQueue mq × Result M
  receive_from none timeout_ms q = (
    q,
    of_error ⦃t = MessageQueue.traits⦄ MessageQueueError.invalid_queue "Queue not initialized",
  )
  receive_from (some fd) timeout_ms q =
      let (kernel, received) =
        if is_infinite timeout_ms
        then mq.mq_receive fd q.kernel
        else mq.mq_timedreceive fd (deadline timeout_ms q.kernel) q.kernel in
      (record q { kernel = kernel }, receive_result received)

  unfoldable pub receive_impl : ℕ → PosixQueue mq → PosixQueue mq × Result M
  unfolding receive_from
  receive_impl timeout_ms q = receive_from q.mqd timeout_ms q

  unfoldable pub free_space_of : Option ℕ → PosixQueue mq → ℕ
  free_space_of none q = 0
  free_space_of (some fd) q = space_of (mq.mq_getattr fd q.kernel)

  unfoldable pub get_free_space_impl : PosixQueue mq → ℕ
  unfolding free_space_of
  get_free_space_impl q = free_space_of q.mqd q

  -- ~MessageQueue: what it leaves of the system's queues.
  unfoldable pub destruct : PosixQueue mq → mq.Kernel
  destruct q = elim q.mqd [
    | none ↦ q.kernel
    | some fd ↦
        let closed = mq.mq_close fd q.kernel in
        if get_or q.queue_name 0 0 == 0 then closed else mq.mq_unlink q.queue_name closed
  ]

  abbrev pub posix_queue : QueueImpl M ℕ
  posix_queue = record {
    State = PosixQueue mq;
    send_impl = send_impl;
    receive_impl = receive_impl;
    get_free_space_impl = get_free_space_impl;
  }
