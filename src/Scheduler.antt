-- ===== src/Scheduler.antt =====
-- The green thread library of scheduler/.
pub mod Demo
pub mod Time
pub mod Stats
pub mod Thread
pub mod Account
pub mod Policy
pub mod Switch
pub mod Create
pub mod Report
pub mod Main
pub mod Sleep
pub mod Work
