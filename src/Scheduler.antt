-- ===== src/Scheduler.antt =====
-- How the cores of src/eople_vm.cpp share their work: the locks of inc/eople_vm.h and the batches of
-- messages that `CoreMain` takes from a queue.
pub mod Lock
pub mod Batch
pub mod Queues
mod Tests
