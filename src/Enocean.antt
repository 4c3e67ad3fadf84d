-- ===== src/Enocean.antt =====
-- src/enocean: the platform-agnostic EnOcean driver. One child for the data types, one for each
-- part of the driver, and their proofs below those.
pub mod Types
pub mod Advert
pub mod Fields
pub mod Sensor
pub mod Table
pub mod Telegram
pub mod Driver
