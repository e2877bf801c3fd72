-- ===== src/Reader/Safety.antt =====
-- The handlers of src/lcapd/reader.c: the invariant, and faults.
pub mod Serving
pub mod Requests
pub mod Dequeue
pub mod Clearing
pub mod Dispatch
