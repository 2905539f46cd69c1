-- ===== src/Tests.antt =====
-- A small cluster, runs of the model on it, and the theorems at concrete data.
pub mod Sets
pub mod World
pub mod Fixtures
mod Grants
mod Checks
pub mod Counts
mod Replies
mod Places
mod Copies
mod Codes
mod Overrun
mod Starting
mod Waits
mod Outcomes
mod Endings
