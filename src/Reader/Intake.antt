-- ===== src/Reader/Intake.antt =====
-- What changelog_reader_enqueue of src/lcapd/reader.c takes in.
pub mod Store
pub mod Loop
pub mod Conserve
