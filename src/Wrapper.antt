-- ===== src/Wrapper.antt =====
-- The wrapper of several jobs while it is submitted: class `WrapperJob` of autosubmit/job/job.py.
pub mod Reason
pub mod State
pub mod Running
pub mod Check
pub mod Returns
pub mod Freed
pub mod Settles
