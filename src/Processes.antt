-- ===== src/Processes.antt =====
-- `Producer-consumer problem for processes`: a queue in shared memory that producer and consumer
-- processes guard by System V semaphores.
pub mod Checksum
pub mod Buffer
pub mod System
pub mod Control
mod Tests
