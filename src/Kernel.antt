-- ===== src/Kernel.antt =====
-- The kernel (proc.h, proc.c, system.c and clock.c of scheduling/src/kernel).
pub mod Proc
pub mod Queue
pub mod Sched
pub mod Groups
pub mod Machine
pub mod Ipc
pub mod Receive
pub mod Segments
pub mod Signals
pub mod Clock
pub mod Processes
