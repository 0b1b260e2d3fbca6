-- ===== src/Tests.antt =====
-- Tests and instances of the theorems at concrete inputs.
mod Holes
mod Sched
mod Swap
mod Disk
mod Files
mod Sync
mod Ipc
mod Clock
mod Processes
mod Family
