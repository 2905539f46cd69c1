-- ===== src/Controllers.antt =====
-- The reconcilers of the two kinds of budget, and what makes them run.
pub mod Application
pub mod Pool
pub mod Watch
pub mod Startup
pub mod Main
pub mod Running
pub mod Types
pub mod Splitting
pub mod Events
