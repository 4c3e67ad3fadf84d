-- ===== src/Tests.antt =====
-- Runs of the model on concrete inputs: each theorem that has a hypothesis is applied here to an
-- input where it holds.
mod Data
mod Parts
mod Driver
mod Platform
mod System
mod Devices
mod Lights
mod Queues
mod Application
