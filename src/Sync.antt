-- ===== src/Sync.antt =====
-- The bounded buffer of synchronization, with monitors and with semaphores.
pub mod Values
pub mod Monitor
pub mod Semaphores
