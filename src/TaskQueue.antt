-- ===== src/TaskQueue.antt =====
-- src/task_queue.rs: the fixed-capacity ring `TaskRing` and the queue `TaskQueue`, a ring with one
-- deferred slot. A method that changes `self` returns its result beside the new value.
mod Defs
pub mod Fifo
pub mod Ring
pub mod Refine
pub mod Queries
pub mod Tests
pub use Defs.{TaskQueue, QueuePush, primary_slot, deferred_slot}
unfoldable pub use Defs.{new_queue, push, pop, front, is_empty, queue_len, has_deferred}
