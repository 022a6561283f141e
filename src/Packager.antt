-- ===== src/Packager.antt =====
-- Which jobs are submitted together: class `JobPackager` of autosubmit/job/job_packager.py.
pub mod Limits
pub mod Bounds
pub mod Package
pub mod Policy
pub mod Simple
pub mod Vertical
pub mod Horizontal
pub mod Divide
pub mod Weight
pub mod Ready
