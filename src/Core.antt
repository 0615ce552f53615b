-- ===== src/Core.antt =====
-- The parts of src/core.
pub mod Scheduler
