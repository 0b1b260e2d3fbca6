-- ===== src/Tests/Swap.antt =====
-- Swapping at a small memory: a hole from 10, a swap hole from 200, a process that waits from 20
-- and one that runs from 40.
use soi_24z.Base.{
  ℕ, ◌+◌, ◌≡◌, refl, Bool, true, false, ◌||◌, none, some, List, [], ◌∷◌, ◌==◌, if◌then◌else◌, ok,
  Ptr, Run,
}
use soi_24z.Mm.Alloc.{try_alloc, find_swap}
use soi_24z.Mm.Holes.{Hole, HoleTable, free_mem}
use soi_24z.Mm.Holes.Blocks.{Block}
use soi_24z.Mm.Swap.{Mproc, Memory, alloc_mem}

abbrev entries : ℕ → Hole
entries i =
    if i == 0
    then record { h_next = some 1; h_base = 10; h_len = 5 }
    else if i == 1
    then record { h_next = none; h_base = 200; h_len = 50 }
    else if i == 2
    then record { h_next = some 3; h_base = 0; h_len = 0 }
    else record { h_next = none; h_base = 0; h_len = 0 }

abbrev table : HoleTable
table = record { hole = entries; hole_head = some 0; free_slots = some 2 }

abbrev holes : List Block
holes = (10, 5) ∷ (200, 50) ∷ []

-- A process with its data from `b` and `n` clicks.
abbrev proc : (waiting : Bool) → (b n : ℕ) → Mproc
proc waiting b n = record {
  paused = false;
  waiting = waiting;
  sigsuspended = false;
  traced = false;
  reply = false;
  onswap = false;
  swapin = false;
  d_vir = 0;
  d_phys = b;
  s_vir = 2;
  s_phys = b + 2;
  s_len = n;
  mp_swapq = none;
}

abbrev mproc : ℕ → Mproc
mproc i = if i == 1 then proc true 20 8 else proc false 40 2

abbrev memory : Memory
memory = record {
  table = table;
  mproc = mproc;
  in_queue = none;
  outswap = 1;
  swap_fd = some 3;
  swap_offset = 0;
  swap_base = 100;
  swap_maxsize = 1000;
  is_worst_fit = false;
  calls = [];
}

abbrev live : ℕ → Bool
live i = (i == 1) || (i == 2)

given_address : Run (Ptr × Memory) → Ptr
given_address (ok (a, m)) = a
given_address r = none

room_made : given_address (alloc_mem 4 8 1 3 9 memory) ≡ some 20
unfolding given_address alloc_mem try_alloc find_swap free_mem
room_made = refl
