-- ===== src/Errors/Names.antt =====
-- The descriptions of the error codes tell them apart.
use enocean_core.Base.{◌≡◌, some}
use enocean_core.Errors.{find_by_name}
use enocean_core.Errors.Enocean.{EnoceanError}
use enocean_core.Errors.Enocean
use enocean_core.Errors.Ble.{BleError}
use enocean_core.Errors.Ble
use enocean_core.Errors.Crypto.{CryptoError}
use enocean_core.Errors.Crypto
use enocean_core.Errors.Mutex.{MutexError}
use enocean_core.Errors.Mutex
use enocean_core.Errors.Semaphore.{SemaphoreError}
use enocean_core.Errors.Semaphore
use enocean_core.Errors.Thread.{ThreadError}
use enocean_core.Errors.Thread
use enocean_core.Errors.MessageQueue.{MessageQueueError}
use enocean_core.Errors.MessageQueue
use enocean_core.Errors.Serial.{SerialError}
use enocean_core.Errors.Serial
use enocean_core.Errors.Gpio.{GpioError}
use enocean_core.Errors.Gpio
use enocean_core.Errors.Watchdog.{WatchdogError}
use enocean_core.Errors.Watchdog

-- In each of the ten enumerations the description of an error leads back to that error, so no two
-- errors of an enumeration are logged alike.
pub names_distinct :
    ((e : EnoceanError) → find_by_name Enocean.name Enocean.all (Enocean.name e) ≡ some e)
    × ((e : BleError) → find_by_name Ble.name Ble.all (Ble.name e) ≡ some e)
    × ((e : CryptoError) → find_by_name Crypto.name Crypto.all (Crypto.name e) ≡ some e)
    × ((e : MutexError) → find_by_name Mutex.name Mutex.all (Mutex.name e) ≡ some e)
    × ((e : SemaphoreError) → find_by_name Semaphore.name Semaphore.all (Semaphore.name e) ≡ some e)
    × ((e : ThreadError) → find_by_name Thread.name Thread.all (Thread.name e) ≡ some e)
    × ((e : MessageQueueError)
        → find_by_name MessageQueue.name MessageQueue.all (MessageQueue.name e) ≡ some e)
    × ((e : SerialError) → find_by_name Serial.name Serial.all (Serial.name e) ≡ some e)
    × ((e : GpioError) → find_by_name Gpio.name Gpio.all (Gpio.name e) ≡ some e)
    × ((e : WatchdogError) → find_by_name Watchdog.name Watchdog.all (Watchdog.name e) ≡ some e)
names_distinct = (
  Enocean.find_by_name-name, Ble.find_by_name-name, Crypto.find_by_name-name,
  Mutex.find_by_name-name, Semaphore.find_by_name-name, Thread.find_by_name-name,
  MessageQueue.find_by_name-name, Serial.find_by_name-name, Gpio.find_by_name-name,
  Watchdog.find_by_name-name,
)
