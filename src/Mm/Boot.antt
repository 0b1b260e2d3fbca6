-- ===== src/Mm/Boot.antt =====
-- The start of the memory manager with the kernel's answers: do_mem of
-- scheduling/src/kernel/system.c, which mem_init asks for chunks of memory until one is empty.
pub mod Answers
use soi_24z.Base.{ℕ, zero, suc, ◌==◌, if◌then◌else◌, Option, some, List, [], ◌∷◌}
use soi_24z.Mm.Setup.{Reply}

-- The kernel's array `mem`: base and size of each chunk.
abbrev pub Mems : Type 0
Mems = List (ℕ × ℕ)

-- `m` is the message that the call came with; the answer is in its fields.
unfoldable pub do_mem : (tot_mem_size : ℕ) → (m : Reply) → Mems → Reply × Mems
do_mem tot_mem_size m [] = (m, [])
do_mem tot_mem_size m ((b, n) ∷ mems) =
    let r : Reply = record { base = b; size = n; all_memory = tot_mem_size } in
    let rest = do_mem tot_mem_size r mems in
    if n == 0 then (rest.0, (b, 0) ∷ rest.1) else (r, (b, 0) ∷ mems)

-- What so many calls answer, each with the message that the last one returned.
unfoldable pub answers : (calls tot_mem_size : ℕ) → (m : Reply) → Mems → List (Option Reply)
unfolding do_mem
answers zero tot_mem_size m mems = []
answers (suc calls) tot_mem_size m mems =
    let (r, mems') = do_mem tot_mem_size m mems in some r ∷ answers calls tot_mem_size r mems'
