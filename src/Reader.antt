-- ===== src/Reader.antt =====
-- src/lcapd/reader.c: the changelog reader of one MDT.
pub mod State
pub mod Buckets
pub mod Clients
pub mod Handlers
pub mod Ingest
pub mod Invariant
pub mod Safety
pub mod Intake
pub mod Answers
pub mod Clear
pub mod Delivery
pub mod Main
pub mod Registry
