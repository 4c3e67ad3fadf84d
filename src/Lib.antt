-- ===== src/Lib.antt =====
-- A verification library for EnOcean Core, a C++ framework that receives EnOcean BLE telegrams.
--
-- The program. A BLE scanner (platform/*/ble) hands each advertisement, with the sender's address,
-- to the driver (src/enocean). The driver extracts the manufacturer data, looks the sender up in a
-- table of eight devices, verifies the telegram of a known device with AES-CCM through the crypto
-- interface (platform/common/icrypto), and calls the application's callbacks. While commissioning is
-- enabled, the telegram of an unknown device with a key in it puts the device in the table. The
-- application (application) starts both and prints what the callbacks are given. Results are passed in
-- an ErrorHandler (include/error_handler), which logs errors. Beside this stand the wrappers of
-- threads, mutexes, semaphores and message queues: a front for each in platform/common, which checks
-- its own flags and arguments, and behind it a backend in platform/posix_core and one in
-- platform/zephyr_core, which call the operating system. The boards (boards) have a LED behind a mutex,
-- a GPIO pin, a serial port and a watchdog.
--
-- Which file models which part.
--   Base              shared helpers: tests, lists, words, bits, signed values, and `Run`, the result
--                     of code that may read outside a buffer (out_of_bounds).
--   Os                the operating system as the wrappers see it: error numbers, return codes, and
--                     methods on the list of calls. Os.Discipline says which calls are in order.
--   ErrorHandler      include/error_handler/ErrorHandler.hpp.
--   Errors            the error codes (platform/common/*/*Error.hpp, boards/common/*/*Error.hpp,
--                     src/enocean/EnoceanError.hpp) and their descriptions.
--   Crypto            platform/common/icrypto/ICrypto.hpp; Crypto.Posix and Crypto.Zephyr are the
--                     backends in platform/*/crypto/Crypto.cpp.
--   Ble               platform/posix_core/ble/Ble.cpp: a round of the scan loop, the loop in Ble.Loop,
--                     and in Ble.Scanner init, start_scan, stop_scan and the destructor.
--                     Ble.RoundTrip says what an advertising report event is. Ble.Zephyr is
--                     platform/zephyr_core/ble/Ble.cpp.
--   PlatformName      the constructors in platform/common that copy the name of an object.
--   Mutex             platform/common/imutex/IMutex.hpp, with the guard; Mutex.Posix and Mutex.Zephyr
--                     are platform/*/mutex/Mutex.cpp. Mutex.Posix.Owner says who holds a mutex.
--   Semaphore         platform/common/isemaphore/ISemaphore.hpp; Semaphore.Posix and Semaphore.Zephyr
--                     are platform/*/semaphore/Semaphore.cpp.
--   Thread            platform/common/ithread/IThread.hpp; Thread.Posix and Thread.Zephyr are
--                     platform/*/thread/Thread.cpp.
--   MessageQueue      platform/common/imessage_queue/IMessageQueue.hpp; MessageQueue.Posix and
--                     MessageQueue.Zephyr are platform/*/message_queue/MessageQueue.ipp, and
--                     MessageQueue.Deadline is ms_to_timespec. MessageQueue.Fifo says what a bounded
--                     queue is.
--   Board.Gpio        boards/zephyr/gpio/Gpio.cpp.
--   Board.Led         boards/posix/led/Led.cpp, also as the steps of several threads (Led.Threads).
--   Board.Serial      boards/common/iserial/ISerial.hpp; Serial.Objects is a program that moves them.
--   Board.Watchdog    boards/zephyr/watchdog/Watchdog.cpp.
--   Enocean.Types     src/enocean/EnoceanTypes.hpp.
--   Enocean.Advert    extract_manufacturer_data. Advert.Structures says what an advertisement is.
--   Enocean.Fields    the sequence number, the nonce and the device type.
--   Enocean.Sensor    the values of a sensor telegram. Sensor.Fields says what they are.
--   Enocean.Table     find_device, allocate_device, device_count. Table.Invariant has IsTable, which
--                     says that the table is well formed.
--   Enocean.Telegram  handle_switch and handle_sensor, on a device.
--   Enocean.Driver    the driver's state and the rest of EnoceanDriver.ipp. Driver.Steps is the
--                     specification as a step relation, Driver.History are sequences of calls.
--   App               application/AppEntry.cpp.
--   Tests             concrete inputs for the theorems.
--
-- How the model is made. A byte or a word is a natural number, a span or an array the list of its
-- elements. A pointer into the device table is the index of its slot together with what the slot
-- holds, and a write through it writes the slot. A call of the driver returns the state that it
-- leaves and the callbacks that it called, in order. A callback is known by whether it is set. What a
-- callback does is not modelled, nor one that calls the driver back. The crypto backend, OpenSSL,
-- bt_ccm_decrypt, BlueZ and Zephyr are parameters. A `while` loop over bytes takes fuel, one more than
-- the bytes it walks over, which is enough since every round moves on by a byte at least.
--
-- A wrapper takes the list of the calls of the operating system so far, the newest first, and returns
-- it with its own calls in front. What the newest call returns is a function of that list, so the system
-- may answer as it likes, and differently each time. A return code is success or a failure with its
-- error number. The loop of os_destroy, which joins a thread again when the join was interrupted, takes
-- fuel: more than the joins that are interrupted in a row is enough, and without such a bound the
-- loop of the source does not end either. Where threads share an object, each
-- statement that touches it is a step of a relation, and the steps of the threads come in any order.
--
-- Not modelled: the log (but for the lines of an ErrorHandler and what the application prints of a
-- sensor), input and output on sockets and devices, what a thread runs, time (a timeout is a value that
-- is handed on), the plaintext of a decryption, how the thread of the POSIX scanner
-- interleaves with its caller, Sleep, which is one call of the system each, the entry points, and
-- the interfaces that only forward a call.
pub mod Base
pub mod ErrorHandler
pub mod Errors
pub mod Os
pub mod PlatformName
pub mod Mutex
pub mod Semaphore
pub mod Thread
pub mod Crypto
pub mod Ble
pub mod MessageQueue
pub mod Board
pub mod Enocean
pub mod App
pub mod Tests
