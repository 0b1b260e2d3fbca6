-- ===== src/Mm/Setup.antt =====
-- `mem_init` of memory-management/src/mm/alloc.c. A reply of the kernel to SYS_MEM is a chunk of
-- memory with the total, or `none` for a call that fails; behind the last of the replies the
-- kernel answers with size 0.
pub mod Ready
use soi_24z.Base.{
  ℕ, zero, suc, ◌+◌, Bool, true, false, ltb, ◌==◌, if◌then◌else◌, Option, none, some, List, [], ◌∷◌,
  u32, Ptr, Run, ok, panic, ◌>>=◌,
}
use soi_24z.Mm.Alloc.{sub32}
use soi_24z.Mm.Holes.{Hole, HoleTable, free_mem}

pub record Reply : Type 0 where
  pub base : ℕ
  pub size : ℕ
  pub all_memory : ℕ

-- What `mem_init` sets: the hole table, its two results, and the bounds of the swap area.
pub record Memory : Type 0 where
  pub table : HoleTable
  pub total : ℕ
  pub free : ℕ
  pub swap_base : ℕ
  pub swap_maxsize : ℕ

-- All entries on the list of unused ones.
unfoldable pub link_all : (nr_holes : ℕ) → (ℕ → Hole) → HoleTable
link_all nr_holes entries = record {
  hole = λ i.
      if ltb i nr_holes
      then record (entries i) { h_next = if suc i == nr_holes then none else some (suc i) }
      else entries i;
  hole_head = none;
  free_slots = some 0;
}

-- The end of `mem_init`.
abbrev pub make_separate : Memory → Memory
make_separate mem = record mem {
  swap_base = u32 (mem.swap_base + 1);
  swap_maxsize = sub32 0 (u32 (mem.swap_base + 1));
}

-- A chunk that the kernel has named.
unfoldable pub add_chunk : (nr_holes : ℕ) → Reply → Memory → Run Memory
add_chunk nr_holes r mem = do
  table ← free_mem nr_holes r.base r.size mem.table
  let end = u32 (r.base + r.size)
  ok (record mem {
    table = table;
    total = r.all_memory;
    free = u32 (mem.free + r.size);
    swap_base = if ltb mem.swap_base end then end else mem.swap_base;
  })

unfoldable pub chunk_loop : (nr_holes : ℕ) → List (Option Reply) → Memory → Run Memory
unfolding add_chunk
chunk_loop nr_holes [] mem = ok mem
chunk_loop nr_holes (none ∷ rs) mem = panic
chunk_loop nr_holes (some r ∷ rs) mem = elim (r.size == 0) [
  | true ↦ ok mem
  | false ↦ (do mem' ← add_chunk nr_holes r mem; chunk_loop nr_holes rs mem')
]

unfoldable pub mem_init : (nr_holes : ℕ) → List (Option Reply) → Memory → Run Memory
unfolding link_all chunk_loop
mem_init nr_holes rs mem = do
  mem' ← chunk_loop nr_holes rs (record mem { table = link_all nr_holes mem.table.hole; free = 0 })
  ok (make_separate mem')
