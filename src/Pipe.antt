-- ===== src/Pipe.antt =====
-- The shared memory pipe of src/shared_memory/shared_memory.h.
pub mod Segment
pub mod Semaphores
pub mod Transfer
