-- ===== src/Lib.antt =====
-- A model of the C code of this repository, changes to the MINIX 2 kernel and memory manager, and
-- of its C++ programs, a virtual disk and a buffer shared by threads.
--
-- Parts and files:
--   Mm/Holes    the hole table of memory-management/src/mm/alloc.c: del_slot, merge, free_mem.
--               `struct hole` is the record Hole; the array hole[] and the pointers hole_head and
--               free_slots are the record HoleTable; a pointer to an entry is its index, or none.
--   Mm/Alloc    findBiggestHole and one round of alloc_mem (try_alloc), by first or worst fit,
--               and the search of swap_out for room in the swap area.
--   Mm/Swap     swap_out and alloc_mem over it, Mm/Swap/Return swap_in, swap_inqueue, swap_on and
--               swap_off of alloc.c, with what they tell the kernel and the file system as a list of calls.
--   Mm/Setup    mem_init: the list of unused entries, and the loop over the kernel's replies to
--               SYS_MEM, which are a parameter, a list.
--   Mm/Boot     do_mem of scheduling/src/kernel/system.c, and what mem_init makes of its answers.
--   Mm/Report   do_hole_map and do_worst_fit of alloc.c; the buffer is a function from indices.
--   Kernel/Proc   struct proc and the static variables of scheduling/src/kernel/proc.h.
--   Kernel/Queue  pick_proc, ready and unready of scheduling/src/kernel/proc.c.
--   Kernel/Sched  sched of scheduling/src/kernel/proc.c, with its groups of processes.
--   Kernel/Groups do_getGroup, do_setGroup, do_getQuants and do_setQuants of
--               scheduling/src/kernel/system.c, with findProcDescriptor.
--   Kernel/Ipc   mini_send and its checks, Kernel/Receive mini_rec, interrupt, unhold, sys_call and
--               the lock_ gateways of scheduling/src/kernel/proc.c, with inform of system.c. A number
--               n of a process is the index n + NR_TASKS of its entry.
--   Kernel/Machine  the configuration that proc.c and system.c take from other headers.
--   Kernel/Segments umap, numap, do_umap, vir_copy and do_copy, Kernel/Signals cause_sig, do_kill and
--               do_endsig, Kernel/Processes do_fork, do_newmap, do_exec, do_xit, do_getsp, do_times
--               and do_findproc of scheduling/src/kernel/system.c. A call of phys_copy is
--               a value, or what it brings is an argument.
--   Kernel/Clock  the requests of scheduling/src/kernel/clock.c, do_clocktick and clock_handler. The
--               functions of other tasks are fields of the record Timing.
--   Mm/Family   the searches of the family tree in syscalls/dummy/misc_dummy.c: countAllDescendants,
--               maxDescendantsInBounds, countDescendantsRecursive, maxNDescendants. mproc[] is
--               a function from indices, NR_PROCS the parameter `nr`.
--   Mm/Chains   the stack search for the longest chain of descendants in
--               syscalls/minix/src/mm/misc.c: determinePathToChildless, longestChildlessChain.
--   Mm/Calls    the do_ calls over these searches, and countDescendants.
--   Fs          the class FileSystem of file-system/fs.h with the searches of misc.cpp; memory, fat
--               and the tables are functions from indices, -1 and -2 constructors of BlockNr.
--   Fs/Files    create, open, close and delete_, Fs/Grow the part of write that adds blocks,
--               Fs/Transfer read and write, of file-system/fs.cpp.
--   Fs/Repair   file-system/repair.cpp and the constructor of FileSystem. The record Disk stands for
--               the data files, which saveToDisk writes and restoreFromDisk reads.
--   Sync/Values   canA, canB, canCons and the changes of the values, for both buffers.
--   Sync/Monitor  synchronization/monitors/buffer.cpp over synchronization/utils/monitor.h.
--   Sync/Semaphores  synchronization/semaphores/buffer.cpp. In both a thread takes a step from one
--               place of its code to another, and the threads take turns in any order.
--   Base        lists, pointers, linked lists as views, and the outcome of a run.
--   Tests       concrete tables and queues.
--
-- free_mem gives memory to the holes that alloc_mem takes it from; sched, ready and unready
-- share the links p_nextready. alloc_mem swaps processes out, swap_in gets memory from alloc_mem, and
-- both give memory back by free_mem. write of the file system takes blocks like create and rolls
-- back like the constructor after a break-down. Code that can fail returns a Run: ok with the new state, panic for
-- the kernel's panic, fault for a read through a nil or an unset pointer, or out_of_fuel.
--
-- Numbers: phys_clicks has 32 bits, and sums and differences wrap. CHIP is INTEL. NR_HOLES, the
-- size `nr` of the process table and the entry `idle` of IDLE are not in the repository and are
-- parameters. The bounds and numbers of generations that a caller of the family searches gives are
-- taken to be no less than 0. ALLOW_GAP_MESSAGES, CLICK_SHIFT and HZ are parameters. Times are
-- patterns of 32 bits; where they are compared, alarms set and ticks counted they stay below LONG_MAX. No interrupt comes while unhold runs, and the count sig_procs is at least 1 where
-- it is decreased. An assert that fails is a panic. check_pending, which swap_in calls, and the outcome
-- of open in swap_on are parameters. Sizes and offsets of files are no less than 0 and fit 16 bits,
-- as the disk has 2048 bytes; a file that the constructor reads holds what was saved. A semaphore is
-- a counter, and P waits while it is 0.
--
-- Fuel: loops over a list of entries take one round more than the table has entries, which is
-- enough as an entry stands in a list once; sched takes three rounds, as there are three groups;
-- the queue search takes one round for each entry of its array, the recursive one a call for each
-- generation, alloc_mem one round more than there are processes, swap_out one for each of them, a
-- loop over a chain of blocks one or two more than there are blocks, and the stack search (Mm.Chains.rounds_enough) visits each process once and then
-- pushes no more than its stack has room for.
-- A local pointer that C leaves unset is the nil pointer, and its use a fault.
--
-- Not modelled: do_svrctl and do_reboot; the copy of the stack search in misc_dummy.c;
-- syn_alrm_task; the calls of the system task for tracing, contexts of signal handlers, vectors of
-- copies, and its loop; the segment registers; the printing of tables, the start of the kernel,
-- the call tables and the test programs; of the C++ programs the menu, the printing, the text of the
-- data files with the errors of opening them, and the start of the threads.
pub mod Base
pub mod Kernel
pub mod Mm
pub mod Fs
pub mod Sync
mod Tests
