-- ===== src/JobList.antt =====
-- The list of jobs and its scheduler: class `JobList` of autosubmit/job/job_list.py.
pub mod State
pub mod Getters
pub mod Edges
pub mod Links
pub mod Recovery
pub mod Update
pub mod Distance
pub mod Cancel
pub mod Members
pub mod Filters
pub mod Graph
