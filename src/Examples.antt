-- ===== src/Examples.antt =====
-- Runs of the modelled code at concrete inputs.
pub mod Attrs
pub mod Files
pub mod Storage
pub mod Feeds
pub mod Batches
pub mod Disks
pub mod Matches
pub mod Registers
pub mod Updates
pub mod Contexts
pub mod Queries
pub mod Locks
pub mod Searches
pub mod Jobs
pub mod Retrieved
