-- ===== src/Tests/Holes.antt =====
-- The hole table at a small memory: two holes, from 10 and from 20, and two unused entries.
use soi_24z.Base.{
  ℕ, ◌+◌, ◌≡◌, refl, true, false, ◌||◌, none, some, List, [], ◌∷◌, arith, ◌==◌, if◌then◌else◌, inr,
  inl, ◌<◌, ok, Ptr,
}
use soi_24z.Mm.Boot.{Mems, answers}
use soi_24z.Mm.Boot.Answers.{named, mem_init-do_mem}
use soi_24z.Mm.Report.{do_hole_map}
use soi_24z.Mm.Report.Shown.{report, Shows, do_hole_map-Shows}
use soi_24z.Mm.Setup.{Reply, Memory, mem_init}
use soi_24z.Mm.Setup.Ready.{given, in_chunks, mem_init-Chunks}
use soi_24z.Mm.Alloc.{try_alloc}
use soi_24z.Mm.Alloc.Back.{free_mem-try_alloc}
use soi_24z.Mm.Alloc.Fit.{Allocation, FirstChosen, WorstChosen, try_alloc-first, try_alloc-worst}
use soi_24z.Mm.Alloc.Memory.{inside, free_mem-covers}
use soi_24z.Mm.Holes.{Hole, HoleTable, put, free_mem}
use soi_24z.Mm.Holes.Blocks.{Block, Gapped, covers, total, free_blocks}
use soi_24z.Mm.Holes.Free.{free_mem-free_blocks}
use soi_24z.Mm.Holes.Merge.{Holds, Yields}

abbrev hole : Ptr → ℕ → ℕ → Hole
hole next b n = record { h_next = next; h_base = b; h_len = n }

abbrev entries : ℕ → Hole
entries i =
    if i == 0
    then hole (some 1) 10 5
    else if i == 1
    then hole none 20 10
    else if i == 2
    then hole (some 3) 0 0
    else hole none 0 0

abbrev table : HoleTable
table = record { hole = entries; hole_head = some 0; free_slots = some 2 }

abbrev two : List Block
two = (10, 5) ∷ (20, 10) ∷ []

two-Holds : Holds 4 table two
two-Holds = record {
  cells = (0, 10, 5) ∷ (1, 20, 10) ∷ [];
  free = 2 ∷ 3 ∷ [];
  is_holes = record {
    holes = (refl, refl, refl, (refl, refl, refl, refl));
    unused = (refl, (refl, refl));
    distinct = (refl, (refl, (refl, (refl, tt))));
  };
  view = refl;
  all_slots = refl;
}

-- The same holes in a table with no entry left.
abbrev small : HoleTable
small = record { hole = entries; hole_head = some 0; free_slots = none }

small-Holds : Holds 2 small two
small-Holds = record {
  cells = (0, 10, 5) ∷ (1, 20, 10) ∷ [];
  free = [];
  is_holes = record {
    holes = (refl, refl, refl, (refl, refl, refl, refl));
    unused = refl;
    distinct = (refl, (refl, tt));
  };
  view = refl;
  all_slots = refl;
}

two-Gapped : Gapped 0 two
two-Gapped = omega arith

-- The block from 15 to 20 joins both holes.
free_mem-free_blocks_example : Yields 4 (free_mem 4 15 5 table) (free_blocks 15 5 two)
free_mem-free_blocks_example =
    free_mem-free_blocks 4 table two 15 5 two-Holds two-Gapped
      (inr (omega arith), (inl (omega arith), tt)) (omega arith) (omega arith) (omega arith)

free_mem-covers_example :
    (t' : HoleTable) × (bs' : List Block) × (free_mem 4 15 5 table ≡ ok t')
    × Holds 4 t' bs'
    × Gapped 0 bs'
    × ((a : ℕ) → covers a bs' ≡ (inside a 15 5 || covers a two))
    × (total bs' ≡ 5 + total two)
free_mem-covers_example =
    free_mem-covers 4 table two 15 5 two-Holds two-Gapped
      (inr (omega arith), (inl (omega arith), tt)) (omega arith) (omega arith) (omega arith)

try_alloc-first_example : Allocation 4 two 100 4 (FirstChosen 100 4) (try_alloc 4 100 4 false table)
try_alloc-first_example = try_alloc-first 4 table two 100 4 two-Holds two-Gapped

try_alloc-worst_example : Allocation 4 two 100 4 (WorstChosen 100) (try_alloc 4 100 4 true table)
try_alloc-worst_example = try_alloc-worst 4 table two 100 4 two-Holds two-Gapped

-- First fit takes the front of the first hole.
abbrev after_first : HoleTable
after_first = put 0 (hole (some 1) 14 1) table

first_taken : try_alloc 4 100 4 false table ≡ ok (some (10, after_first))
unfolding try_alloc
first_taken = refl

free_mem-try_alloc_example : Yields 4 (free_mem 4 10 4 after_first) two
free_mem-try_alloc_example =
    free_mem-try_alloc 4 table after_first two 100 4 10 false two-Holds two-Gapped (omega arith)
      (omega arith) first_taken

-- Two chunks of memory that the kernel names.
abbrev chunks : List Reply
chunks =
    record { base = 0; size = 640; all_memory = 3712 }
    ∷ record { base = 1024; size = 3072; all_memory = 3712 }
    ∷ []

abbrev at_boot : Memory
at_boot = record { table = table; total = 0; free = 0; swap_base = 0; swap_maxsize = 0 }

mem_init-Chunks_example :
    (mem' : Memory) × (bs : List Block) × (mem_init 4 (given chunks) at_boot ≡ ok mem')
    × Holds 4 mem'.table bs
    × Gapped 0 bs
    × ((a : ℕ) → covers a bs ≡ in_chunks a chunks)
    × (mem'.free ≡ total bs)
    × ((a : ℕ) → covers a bs ≡ true → a + 1 < mem'.swap_base)
unfolding free_blocks
mem_init-Chunks_example = mem_init-Chunks 4 chunks at_boot (omega arith) (omega arith) (
  tt,
  omega arith,
  omega arith,
  omega arith,
  ((inr (omega arith), tt), omega arith, omega arith, omega arith, tt),
)

do_hole_map-Shows_example :
    (b : ℕ → ℕ) × (do_hole_map 4 100 24 (λ i. 7) table ≡ ok (2, b))
    × Shows b 0 two
    × (2 < 3 → b 4 ≡ 0)
unfolding report
do_hole_map-Shows_example = do_hole_map-Shows 4 100 24 (λ i. 7) table two two-Holds

-- The kernel's chunks, of which one is empty.
abbrev mems : Mems
mems = (0, 640) ∷ (900, 0) ∷ (1024, 3072) ∷ []

abbrev unset : Reply
unset = record { base = 0; size = 0; all_memory = 0 }

mem_init-do_mem_example :
    (mem' : Memory) × (bs : List Block) × (mem_init 4 (answers 3 3712 unset mems) at_boot ≡ ok mem')
    × Holds 4 mem'.table bs
    × Gapped 0 bs
    × ((a : ℕ) → covers a bs ≡ in_chunks a chunks)
unfolding named free_blocks
mem_init-do_mem_example =
    mem_init-do_mem 4 3712 unset mems at_boot (omega arith) (omega arith) (omega arith) (
      tt,
      omega arith,
      omega arith,
      omega arith,
      ((inr (omega arith), tt), omega arith, omega arith, omega arith, tt),
    )
