-- ===== src/Mm/Swap/Return.antt =====
-- swap_in, swap_inqueue, swap_on and swap_off of memory-management/src/mm/alloc.c.
use soi_24z.Base.{
  ℕ, zero, suc, ◌+◌, ◌-◌, ◌*◌, ◌/◌, ◌^◌, Bool, true, false, ◌||◌, none, some, ltb, leb,
  if◌then◌else◌, u32, Ptr, Run, ok, fault, out_of_fuel, ◌>>=◌,
}
use soi_24z.Mm.Holes.{del_slot, free_mem}
use soi_24z.Mm.Swap.{
  lseek, rw_seg, sys_newmap, chdir_fs, close_file, Memory, call, put_proc, put_table, swap_size,
  move_segments, file_offset, set_link, link_at, alloc_mem,
}

-- The last link of the queue.
unfoldable pub queue_end : (fuel : ℕ) → Ptr → Memory → Run Ptr
queue_end zero pmp m = out_of_fuel
queue_end (suc fuel) pmp m = elim (link_at pmp m) [
  | none ↦ ok pmp
  | some rmp ↦ queue_end fuel (some rmp) m
]

unfoldable pub swap_inqueue : (nr_procs : ℕ) → ℕ → Memory → Run Memory
unfolding queue_end
swap_inqueue nr_procs rmp m =
    let chained = (do
      pmp ← queue_end (suc nr_procs) none m
      let m1 = set_link pmp (some rmp) m
      ok (put_proc rmp (record (m1.mproc rmp) { mp_swapq = none; swapin = true }) m1)) in
    if (m.mproc rmp).swapin then ok m else chained

-- The first loop of `swap_off`, over the processes from `i` on.
unfoldable pub queue_swapped : (nr_procs left i : ℕ) → Memory → Run Memory
unfolding swap_inqueue
queue_swapped nr_procs zero i m = ok m
queue_swapped nr_procs (suc left) i m = do
  m' ← if (m.mproc i).onswap then swap_inqueue nr_procs i m else ok m
  queue_swapped nr_procs left (suc i) m'

unfoldable pub some_swapped : (left i : ℕ) → Memory → Bool
some_swapped zero i m = false
some_swapped (suc left) i m = (m.mproc i).onswap || some_swapped left (suc i) m

-- The loop that removes the swap hole. After a removal it goes on behind the first hole,
-- and reads through a nil pointer if there is none.
unfoldable pub drop_swap : (fuel : ℕ) → (prev_ptr hp : Ptr) → Memory → Run Memory
drop_swap zero prev_ptr hp m = out_of_fuel
drop_swap (suc fuel) prev_ptr none m = ok m
drop_swap (suc fuel) prev_ptr (some hp) m = elim (leb m.swap_base (m.table.hole hp).h_base) [
  | false ↦ drop_swap fuel (some hp) (m.table.hole hp).h_next m
  | true ↦ (do
    table ← del_slot prev_ptr hp m.table
    elim (table.hole_head) [
      | none ↦ fault
      | some first ↦ drop_swap fuel (some first) (table.hole first).h_next (put_table table m)
    ])
]

-- What `swap_on` answers: EBUSY, the error of `open`, or what happens to be returned where the
-- code ends without a return.
pub data SwapOn : Type 0 where
  busy : SwapOn
  cannot_open : (errno : ℕ) → SwapOn
  unspecified : SwapOn

-- The outcome of `open`: a descriptor, or the error.
pub data Opened : Type 0 where
  descriptor : ℕ → Opened
  failure : (errno : ℕ) → Opened

module _ (nr_holes click_shift : ℕ) where
  -- The process `i` comes back from `old_base` to `new_base`.
  unfoldable pub read_in : (i size new_base : ℕ) → Memory → Run Memory
  read_in i size new_base m =
      let rmp = m.mproc i in
      let moved = move_segments new_base rmp in
      let m1 = call (sys_newmap i moved.d_phys moved.s_phys) (put_proc i moved m) in
      let m2 = call (lseek (file_offset click_shift rmp.d_phys m)) m1 in
      let m3 = call (rw_seg false i (u32 (size * 2 ^ click_shift))) m2 in
      do
        table ← free_mem nr_holes rmp.d_phys size m3.table
        ok (put_proc i (record moved { onswap = false; swapin = false }) (put_table table m3))

  module _ (low_user nr_procs : ℕ) where
    -- The loop of `swap_in`; check_pending is not in this repository.
    module _ (check_pending : ℕ → Memory → Memory) where
      unfoldable pub swap_in_loop : (fuel : ℕ) → Ptr → Memory → Run Memory
      unfolding alloc_mem read_in
      swap_in_loop zero pmp m = out_of_fuel
      swap_in_loop (suc fuel) pmp m = elim (link_at pmp m) [
        | none ↦ ok m
        | some i ↦ elim ((m.mproc i).swapin) [
          | false ↦ swap_in_loop fuel pmp (set_link pmp (m.mproc i).mp_swapq m)
          | true ↦ (do
            r ← alloc_mem nr_holes click_shift low_user nr_procs (swap_size (m.mproc i)) m
            elim (r.0) [
              | none ↦ swap_in_loop fuel (some i) r.1
              | some new_base ↦ (do
                m' ← read_in i (swap_size (m.mproc i)) new_base r.1
                swap_in_loop fuel pmp (check_pending i (set_link pmp (m'.mproc i).mp_swapq m')))
            ])
        ]
      ]

      unfoldable pub swap_in : Memory → Run Memory
      unfolding swap_in_loop
      swap_in m = swap_in_loop (suc nr_procs) none m

      -- The result is true for OK, false for ENOMEM.
      unfoldable pub swap_off : Memory → Run (Bool × Memory)
      unfolding swap_in queue_swapped some_swapped drop_swap
      swap_off m = elim (m.swap_fd) [
        | none ↦ ok (true, m)
        | some fd ↦ (do
          m1 ← queue_swapped nr_procs (nr_procs - low_user) low_user m
          m2 ← swap_in m1
          elim (some_swapped (nr_procs - low_user) low_user m2) [
            | true ↦ ok (false, m2)
            | false ↦ (do
              m3 ← drop_swap (suc (nr_holes + nr_holes)) none m2.table.hole_head m2
              ok (true, record (call (close_file fd) m3) { swap_fd = none }))
          ])
      ]

  unfoldable pub swap_on : (who : ℕ) → Opened → (offset size : ℕ) → Memory → Run (SwapOn × Memory)
  swap_on who opened offset size m = elim (m.swap_fd) [
    | some fd ↦ ok (busy, m)
    | none ↦ elim opened [
      | failure e ↦ ok (cannot_open e, call (chdir_fs who) m)
      | descriptor fd ↦
          let clicks = size / 2 ^ click_shift in
          let few = if ltb m.swap_maxsize clicks then m.swap_maxsize else clicks in
          let m1 = record (call (chdir_fs who) m) { swap_fd = some fd; swap_offset = offset } in
          do table ← free_mem nr_holes m.swap_base few m.table; ok (unspecified, put_table table m1)
    ]
  ]
