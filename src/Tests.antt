-- ===== src/Tests.antt =====
-- Runs of the models at concrete inputs, and the instances of the theorems.
pub mod Setup
pub mod States
pub mod Runs
pub mod ReaderCases
pub mod NetCases
pub mod WireCases
pub mod MainCases
pub mod ClientCases
pub mod QueueCases
pub mod ConfigCases
pub mod SystemCases
pub mod DaemonCases
