-- ===== src/MessageQueue/Zephyr.antt =====
-- platform/zephyr_core/message_queue/MessageQueue.ipp and MessageQueue.hpp. The kernel's k_msgq is a
-- parameter, and so is what a timeout is.
pub mod Refine
use enocean_core.Base.{ℕ, Bool, true, false, not, ◌∷◌, ◌==◌, if◌then◌else◌}
use enocean_core.ErrorHandler.{ErrorHandler, of_value, of_error}
use enocean_core.Errors.MessageQueue.{MessageQueueError}
use enocean_core.Errors.MessageQueue
use enocean_core.Os.{
  Errno, einval, ealready, eagain, ebusy, etimedout, enomem, Rc, success, failure,
}
use enocean_core.MessageQueue.Fifo.{Result, QueueImpl}

pub data Received (M : Type 0) : Type 0 where
  message : M → Received M
  not_received : Errno → Received M

-- A k_msgq for messages of one type; an error number is negated.
pub record KMsgq (M Timeout : Type 0) : Type 1 where
  pub Kernel : Type 0
  pub k_msgq_init : ℕ → Kernel → Kernel
  pub k_msgq_put : M → Timeout → Kernel → Kernel × Rc
  pub k_msgq_get : Timeout → Kernel → Kernel × Received M
  pub k_msgq_num_free_get : Kernel → ℕ

unfoldable pub k_error_to_error : Errno → MessageQueueError
k_error_to_error einval = MessageQueueError.invalid_parameter
k_error_to_error ealready = MessageQueueError.already_initialized
k_error_to_error eagain = MessageQueueError.timeout
k_error_to_error ebusy = MessageQueueError.timeout
k_error_to_error etimedout = MessageQueueError.timeout
k_error_to_error enomem = MessageQueueError.insufficient_memory
k_error_to_error _ = MessageQueueError.unknown

abbrev pub send_result : Rc → Result (Unit {0})
send_result success = of_value tt
send_result (failure eagain) =
    of_error ⦃t = MessageQueue.traits⦄ MessageQueueError.queue_full
      "k_msgq_put queue full or timeout"
send_result (failure ebusy) =
    of_error ⦃t = MessageQueue.traits⦄ MessageQueueError.queue_full
      "k_msgq_put queue full or timeout"
send_result (failure e) =
    of_error ⦃t = MessageQueue.traits⦄ (k_error_to_error e) "k_msgq_put failed"

abbrev pub receive_result : {M : Type 0} → Received M → Result M
receive_result (message msg) = of_value msg
receive_result (not_received eagain) =
    of_error ⦃t = MessageQueue.traits⦄ MessageQueueError.queue_empty
      "k_msgq_get queue empty or timeout"
receive_result (not_received ebusy) =
    of_error ⦃t = MessageQueue.traits⦄ MessageQueueError.queue_empty
      "k_msgq_get queue empty or timeout"
receive_result (not_received e) =
    of_error ⦃t = MessageQueue.traits⦄ (k_error_to_error e) "k_msgq_get failed"

pub record ZephyrQueue {M Timeout : Type 0} (mq : KMsgq M Timeout) : Type 0 where
  pub initialized : Bool
  pub kernel : mq.Kernel

module _ {M Timeout : Type 0} (mq : KMsgq M Timeout) where
  unfoldable pub init_impl : ℕ → ZephyrQueue mq → ZephyrQueue mq × Result (Unit {0})
  init_impl capacity q =
      if capacity == 0
      then (
        q,
        of_error ⦃t = MessageQueue.traits⦄ MessageQueueError.invalid_parameter "Invalid capacity",
      )
      else if q.initialized
      then (
        q,
        of_error ⦃t = MessageQueue.traits⦄ MessageQueueError.already_initialized
            "Queue already initialized",
      )
      else (record { initialized = true; kernel = mq.k_msgq_init capacity q.kernel }, of_value tt)

  unfoldable pub send_impl : M → Timeout → ZephyrQueue mq → ZephyrQueue mq × Result (Unit {0})
  send_impl msg timeout q =
      let (kernel, result) = mq.k_msgq_put msg timeout q.kernel in
      if not q.initialized
      then (
        q,
        of_error ⦃t = MessageQueue.traits⦄ MessageQueueError.invalid_queue "Queue not initialized",
      )
      else (record q { kernel = kernel }, send_result result)

  unfoldable pub receive_impl : Timeout → ZephyrQueue mq → ZephyrQueue mq × Result M
  receive_impl timeout q =
      let (kernel, received) = mq.k_msgq_get timeout q.kernel in
      if not q.initialized
      then (
        q,
        of_error ⦃t = MessageQueue.traits⦄ MessageQueueError.invalid_queue "Queue not initialized",
      )
      else (record q { kernel = kernel }, receive_result received)

  unfoldable pub get_free_space_impl : ZephyrQueue mq → ℕ
  get_free_space_impl q = if not q.initialized then 0 else mq.k_msgq_num_free_get q.kernel

  abbrev pub zephyr_queue : QueueImpl M Timeout
  zephyr_queue = record {
    State = ZephyrQueue mq;
    send_impl = send_impl;
    receive_impl = receive_impl;
    get_free_space_impl = get_free_space_impl;
  }
