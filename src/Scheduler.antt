-- ===== src/Scheduler.antt =====
-- The scheduler of src/main.rs: the userspace fallback pipeline, from the tasks that BPF queues to
-- the tasks that are dispatched back, and its housekeeping.
pub mod Types
pub mod Features
pub mod Wake
pub mod Lanes
pub mod Derive
pub mod Pipeline
pub mod Hold
pub mod Priority
pub mod Dispatch
pub mod Batch
pub mod Drain
pub mod Schedule
pub mod Housekeeping
pub mod Invariant
pub mod Bounds
pub mod Runs
pub mod Promises
pub mod Tests
