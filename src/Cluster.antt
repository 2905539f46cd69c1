-- ===== src/Cluster.antt =====
-- The controller on a cluster whose disruptions change one at a time, with one budget of an application
-- looked at: what is fixed, what an environment shows of the cluster, and the steps.
pub mod Reads
pub mod Found
pub mod Granted
pub mod Counted
pub mod Ledger
pub mod Steps
