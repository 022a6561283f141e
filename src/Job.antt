-- ===== src/Job.antt =====
-- A job of the workflow: its status codes, its record, and the methods that change it.
pub mod Status
pub mod Record
pub mod Update
pub mod Ancestors
