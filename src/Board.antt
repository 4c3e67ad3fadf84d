-- ===== src/Board.antt =====
-- boards/: the drivers of a board's devices.
pub mod Gpio
pub mod Led
pub mod Serial
pub mod Watchdog
