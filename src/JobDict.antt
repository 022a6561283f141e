-- ===== src/JobDict.antt =====
-- The jobs of a section by date, member and chunk: class `DicJobs` of autosubmit/job/job_dict.py.
pub mod Names
pub mod Create
pub mod Flatten
pub mod Get
pub mod Loops
pub mod Refines
pub mod Chunks
pub mod Counted
pub mod Zero
pub mod Synchronize
