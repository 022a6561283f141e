-- ===== src/Tests.antt =====
-- Concrete workflows, and the theorems at work on them.
pub mod Samples
pub mod Lists
pub mod Packages
pub mod Dict
pub mod Wrappers
pub mod Vertical
pub mod Links
pub mod Values
pub mod Ready
pub mod Queues
pub mod Rounds
pub mod Filters
pub mod Graph
