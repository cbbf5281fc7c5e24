-- ===== src/Threads.antt =====
-- `Threads of execution, interaction and synchronization`: messages in a circular queue that
-- producer and consumer threads share, by semaphores or by condition variables.
pub mod Message
pub mod Ring
pub mod Semaphore
pub mod Sem
pub mod Cond
pub mod Slots
