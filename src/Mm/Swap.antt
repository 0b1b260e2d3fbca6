-- ===== src/Mm/Swap.antt =====
-- The swapping of processes in memory-management/src/mm/alloc.c: swap_out, and alloc_mem over it. A
-- process is the index of its entry in mproc[]; what the calls of the kernel and of the file system
-- are told is recorded in the order of the calls.
pub mod Place
pub mod Sound
pub mod Out
pub mod Alloc
pub mod Return
use soi_24z.Base.{
  ℕ, zero, suc, ◌+◌, ◌-◌, ◌*◌, ◌/◌, ◌%◌, ◌^◌, Bool, true, false, not, ◌&&◌, ◌||◌, Option, none,
  some, List, [], ◌∷◌, ◌++◌, ltb, leb, ◌==◌, if◌then◌else◌, u32, Ptr, update, Run, ok, fault,
  out_of_fuel, ◌>>=◌,
}
use soi_24z.Mm.Alloc.{sub32, find_swap, bite, try_alloc}
use soi_24z.Mm.Holes.{HoleTable, del_slot, free_mem}

-- What alloc.c reads and writes of `struct mproc`: bits of mp_flags, the segments D and S, and
-- the link of the queue.
pub record Mproc : Type 0 where
  pub paused : Bool
  pub waiting : Bool
  pub sigsuspended : Bool
  pub traced : Bool
  pub reply : Bool
  pub onswap : Bool
  pub swapin : Bool
  pub d_vir : ℕ
  pub d_phys : ℕ
  pub s_vir : ℕ
  pub s_phys : ℕ
  pub s_len : ℕ
  pub mp_swapq : Ptr

-- A call of the kernel or of the file system.
pub data Call : Type 0 where
  lseek : (off : ℕ) → Call
  rw_seg : (writing : Bool) (proc_nr bytes : ℕ) → Call
  sys_newmap : (proc_nr d_phys s_phys : ℕ) → Call
  chdir_fs : (who : ℕ) → Call
  close_file : (fd : ℕ) → Call

-- The static variables of alloc.c with mproc[]; `swap_fd` is none for -1.
pub record Memory : Type 0 where
  pub table : HoleTable
  pub mproc : ℕ → Mproc
  pub in_queue : Ptr
  pub outswap : ℕ
  pub swap_fd : Option ℕ
  pub swap_offset : ℕ
  pub swap_base : ℕ
  pub swap_maxsize : ℕ
  pub is_worst_fit : Bool
  pub calls : List Call

abbrev pub call : Call → Memory → Memory
call c m = record m { calls = m.calls ++ c ∷ [] }

abbrev pub put_proc : ℕ → Mproc → Memory → Memory
put_proc i rmp m = record m { mproc = update m.mproc i rmp }

abbrev pub put_table : HoleTable → Memory → Memory
put_table t m = record m { table = t }

-- The size of the data and the stack with the gap between them.
abbrev pub swap_size : Mproc → ℕ
swap_size rmp = sub32 (u32 (rmp.s_vir + rmp.s_len)) rmp.d_vir

-- The segments D and S from `new_base` on.
abbrev pub move_segments : ℕ → Mproc → Mproc
move_segments new_base rmp = record rmp {
  d_phys = new_base;
  s_phys = u32 (new_base + sub32 rmp.s_vir rmp.d_vir);
}

abbrev pub blocked : Mproc → Bool
blocked rmp = rmp.paused || (rmp.waiting || rmp.sigsuspended)

-- The two tests of `swap_out` on a process.
abbrev pub can_leave : Mproc → Bool
can_leave rmp = blocked rmp && not (rmp.traced || (rmp.reply || rmp.onswap))

-- The offset in the swap file of the address `base`.
abbrev pub file_offset : (click_shift base : ℕ) → Memory → ℕ
file_offset shift base m = m.swap_offset + u32 (sub32 base m.swap_base * 2 ^ shift)

abbrev pub next_candidate : (low_user nr_procs : ℕ) → ℕ → ℕ
next_candidate low_user nr_procs i = if suc i == nr_procs then low_user else suc i

-- A pointer to a link of the queue: in_queue itself, or the link of a process.
abbrev pub set_link : Ptr → Ptr → Memory → Memory
set_link none q m = record m { in_queue = q }
set_link (some p) q m = put_proc p (record (m.mproc p) { mp_swapq = q }) m

abbrev pub link_at : Ptr → Memory → Ptr
link_at none m = m.in_queue
link_at (some p) m = (m.mproc p).mp_swapq

module _ (nr_holes click_shift : ℕ) where
  -- The process `i` of `size` clicks goes to `new_base`, which was bitten off a swap hole.
  unfoldable pub write_out : (i size new_base : ℕ) → Memory → Run Memory
  write_out i size new_base m =
      let rmp = m.mproc i in
      let m1 = call (lseek (file_offset click_shift new_base m)) m in
      let m2 = call (rw_seg true i (u32 (size * 2 ^ click_shift))) m1 in
      let moved = move_segments new_base rmp in
      let m3 = call (sys_newmap i moved.d_phys moved.s_phys) (put_proc i moved m2) in
      do
        table ← free_mem nr_holes rmp.d_phys size m3.table
        ok (put_proc i (record moved { onswap = true }) (put_table table m3))

  -- One candidate of `swap_out`; `none` is a `continue`.
  unfoldable pub swap_one : ℕ → Memory → Run (Option Memory)
  unfolding write_out
  swap_one i m =
      let size = swap_size (m.mproc i) in
      elim (can_leave (m.mproc i)) [
        | false ↦ ok none
        | true ↦ (do
          found ← find_swap (suc nr_holes) m.swap_base size none m.table.hole_head m.table
          elim found [
            | none ↦ ok none
            | some (prev_ptr, hp) ↦ (do
              taken ← bite size prev_ptr hp m.table
              m' ← write_out i size taken.0 (put_table taken.1 m)
              ok (some (record m' { outswap = i })))
          ])
      ]

  module _ (low_user nr_procs : ℕ) where
    -- The loop of `swap_out`; `none` is FALSE.
    unfoldable pub swap_loop : (fuel rmp : ℕ) → Memory → Run (Option Memory)
    unfolding swap_one
    swap_loop zero rmp m = out_of_fuel
    swap_loop (suc fuel) rmp m =
        let i = next_candidate low_user nr_procs rmp in
        let rest = swap_loop fuel i m in
        do
          out ← swap_one i m
          elim out [ some m' ↦ ok (some m') | none ↦ if i == m.outswap then ok none else rest ]

    unfoldable pub swap_out : Memory → Run (Option Memory)
    unfolding swap_loop
    swap_out m = swap_loop nr_procs m.outswap m

    -- The loop of `alloc_mem` by either strategy; the address is `none` for NO_MEM.
    unfoldable pub alloc_loop : (fuel clicks : ℕ) → Memory → Run (Ptr × Memory)
    unfolding swap_out
    alloc_loop zero clicks m = out_of_fuel
    alloc_loop (suc fuel) clicks m = do
      found ← try_alloc nr_holes m.swap_base clicks m.is_worst_fit m.table
      elim found [
        | some (base, table) ↦ ok (some base, put_table table m)
        | none ↦ (do
          out ← swap_out m
          elim out [ none ↦ ok (none, m) | some m' ↦ alloc_loop fuel clicks m' ])
      ]

    -- A process swapped out stays so, so that one round for each of them is enough.
    unfoldable pub alloc_mem : ℕ → Memory → Run (Ptr × Memory)
    unfolding alloc_loop
    alloc_mem clicks m = alloc_loop (suc nr_procs) clicks m
