-- ===== src/ActiveObject.antt =====
-- Patterns/Active_object: a thread that executes the callbacks of a queue, one after the other.
pub mod Active
pub mod Queue
pub mod Order
pub mod Steps
pub mod Shutdown
