-- ===== src/Mm/Setup/Ready.antt =====
-- The memory after `mem_init`.
use soi_24z.Base.{
  ℕ, zero, suc, ◌+◌, ◌<◌, ◌≤◌, ◌≡◌, refl, ◌∙◌, Bool, true, false, ltb, ◌==◌, if◌then◌else◌, ◌^◌,
  none, some, Option, Ptr, List, [], ◌∷◌, arith, ok, ◌>>=◌, length, indices_from,
  indices_from-Distinct, subst, leb, ◌||◌, ◌&&◌, u32,
}
use soi_24z.Mm.Holes.{Hole}
use soi_24z.Mm.Holes.Blocks.{
  Block, Gapped, Clear, total, covers, free_blocks, free_blocks-Gapped, total-free_blocks,
  covers-free_blocks,
}
use soi_24z.Mm.Holes.Free.{free_mem-free_blocks}
use soi_24z.Mm.Holes.Chain.{Unused}
use soi_24z.Mm.Holes.Merge.{Holds}
use soi_24z.Mm.Setup.{Reply, Memory, link_all, add_chunk, chunk_loop, mem_init, make_separate}

length-indices_from : (i n : ℕ) → length (indices_from i n) ≡ n
length-indices_from i zero = refl
length-indices_from i (suc n) = omega (arith, length-indices_from (suc i) n)

-- From entry `i` on the links lead through the rest of the table.
linked :
    (nr : ℕ) (e : ℕ → Hole) (i n : ℕ)
    → i + n ≡ nr
    → Unused (link_all nr e).hole (if i == nr then none else some i) (indices_from i n)
unfolding link_all
linked nr e i zero h = ground arith
linked nr e i (suc n) h =
    let low : ltb i nr ≡ true = ground arith in
    let next : (if suc i == nr then none else some (suc i)) ≡ ((link_all nr e).hole i).h_next =
      rw low refl in
    (
      ground arith,
      subst (λ (q : Ptr). Unused (link_all nr e).hole q (indices_from (suc i) n)) next
          (linked nr e (suc i) n (omega arith)),
    )

-- The table that `mem_init` starts with holds no memory.
pub link_all-Holds : (nr : ℕ) (e : ℕ → Hole) → 0 < nr → Holds nr (link_all nr e) []
unfolding link_all
link_all-Holds nr e some_room = record {
  cells = [];
  free = indices_from 0 nr;
  is_holes = record {
    holes = refl;
    unused =
        subst (λ (q : Ptr). Unused (link_all nr e).hole q (indices_from 0 nr)) (ground arith)
          (linked nr e 0 nr (omega arith));
    distinct = indices_from-Distinct 0 nr;
  };
  view = refl;
  all_slots = omega (arith, length-indices_from 0 nr);
}

-- Each chunk of memory, when it is named, shares no address with those before it, ends two
-- addresses below 2 ^ 32 or earlier, and finds an entry of the table.
abbrev pub Chunks : (nr_holes : ℕ) → List Block → List Reply → Type 0
Chunks nr bs [] = Unit
Chunks nr bs (r ∷ rs) =
    Clear r.base r.size bs
    × (0 < r.size)
    × (r.base + r.size + 1 < 2 ^ 32)
    × (length bs < nr)
    × Chunks nr (free_blocks r.base r.size bs) rs

abbrev pub in_chunks : ℕ → List Reply → Bool
in_chunks a [] = false
in_chunks a (r ∷ rs) = (leb r.base a && ltb a (r.base + r.size)) || in_chunks a rs

-- The memory holds the blocks `bs`, counts them, and ends below the swap area.
record Filled (nr_holes : ℕ) (bs : List Block) (mem : Memory) : Type 0 where
  holds : Holds nr_holes mem.table bs
  gapped : Gapped 0 bs
  counted : mem.free ≡ total bs
  below : (a : ℕ) → covers a bs ≡ true → a < mem.swap_base
  small : mem.swap_base + 1 < 2 ^ 32

Gapped-total : (lo : ℕ) (bs : List Block) → Gapped lo bs → lo ≤ 2 ^ 32 → lo + total bs ≤ 2 ^ 32
Gapped-total lo [] g h = omega arith
Gapped-total lo ((b, n) ∷ bs) g h =
    omega (arith, Gapped-total (suc (b + n)) bs g.3 (omega (arith, g.2)), g.0)

total-small : (bs : List Block) → Gapped 0 bs → total bs < 2 ^ 32
total-small [] g = omega arith
total-small ((b, n) ∷ bs) g = omega (arith, Gapped-total (suc (b + n)) bs g.3 (omega (arith, g.2)))

-- The replies of the kernel that name the chunks.
abbrev pub given : List Reply → List (Option Reply)
given [] = []
given (r ∷ rs) = some r ∷ given rs

module _ (nr : ℕ) where
  add_chunk-Filled :
      (r : Reply) (bs : List Block) (mem : Memory)
      → Filled nr bs mem
      → Clear r.base r.size bs
      → 0 < r.size
      → r.base + r.size + 1 < 2 ^ 32
      → length bs < nr
      → (mem' : Memory) × (add_chunk nr r mem ≡ ok mem')
        × Filled nr (free_blocks r.base r.size bs) mem'
  unfolding add_chunk
  add_chunk-Filled r bs mem v c pos fits room =
      let (t', run, out) =
        free_mem-free_blocks nr mem.table bs r.base r.size v.holds v.gapped c pos (omega arith)
          room in
      let g = free_blocks-Gapped 0 r.base r.size bs (omega arith) pos (omega arith) c v.gapped in
      let end = u32 (r.base + r.size) in
      let mem' : Memory = record mem {
        table = t';
        total = r.all_memory;
        free = u32 (mem.free + r.size);
        swap_base = if ltb mem.swap_base end then end else mem.swap_base;
      } in
      let sum = total-free_blocks r.base r.size bs in
      (
        mem',
        rw run refl,
        record {
          holds = out;
          gapped = g;
          counted = omega (arith, sum, total-small (free_blocks r.base r.size bs) g, v.counted);
          below = λ a h. ground (arith, h, covers-free_blocks a r.base r.size bs, v.below a);
          small = ground (arith, v.small);
        },
      )

  chunk_loop-add :
      (r : Reply) (rs : List Reply) (mem : Memory)
      → (r.size == 0) ≡ false
      → chunk_loop nr (given (r ∷ rs)) mem
        ≡ (do mem' ← add_chunk nr r mem; chunk_loop nr (given rs) mem')
  unfolding chunk_loop
  chunk_loop-add r rs mem e = rw (e, chunk_loop) refl

  chunk_loop-Filled :
      (rs : List Reply) (bs : List Block) (mem : Memory)
      → Filled nr bs mem
      → Chunks nr bs rs
      → (mem' : Memory) × (bs' : List Block) × (chunk_loop nr (given rs) mem ≡ ok mem')
        × Filled nr bs' mem'
        × ((a : ℕ) → covers a bs' ≡ (in_chunks a rs || covers a bs))
  unfolding chunk_loop
  chunk_loop-Filled [] bs mem v c = (mem, bs, refl, v, λ a. refl)
  chunk_loop-Filled (r ∷ rs) bs mem v (c, pos, fits, room, more) =
      let (mem1, run, w) = add_chunk-Filled r bs mem v c pos fits room in
      let (mem', bs', run', out, all) =
        chunk_loop-Filled rs (free_blocks r.base r.size bs) mem1 w more in
      let some_size : (r.size == 0) ≡ false = ground arith in
      (
        mem',
        bs',
        chunk_loop-add r rs mem some_size ∙ rw run run',
        out,
        λ a. ground (arith, all a, covers-free_blocks a r.base r.size bs),
      )

-- If there is an entry in the table, the swap area started low enough, and the chunks are as
-- `Chunks` says, `mem_init` ends with all the chunks that the kernel names as unused memory,
-- counted in `free`, and with the swap area above all of it.
pub mem_init-Chunks :
    (nr_holes : ℕ) (rs : List Reply) (mem : Memory)
    → 0 < nr_holes
    → mem.swap_base + 1 < 2 ^ 32
    → Chunks nr_holes [] rs
    → (mem' : Memory) × (bs : List Block) × (mem_init nr_holes (given rs) mem ≡ ok mem')
      × Holds nr_holes mem'.table bs
      × Gapped 0 bs
      × ((a : ℕ) → covers a bs ≡ in_chunks a rs)
      × (mem'.free ≡ total bs)
      × ((a : ℕ) → covers a bs ≡ true → a + 1 < mem'.swap_base)
unfolding mem_init
mem_init-Chunks nr rs mem some_room low c =
    let start : Memory = record mem { table = link_all nr mem.table.hole; free = 0 } in
    let v : Filled nr [] start = record {
      holds = link_all-Holds nr mem.table.hole some_room;
      gapped = tt;
      counted = refl;
      below = λ a h. absurd (ground arith);
      small = low;
    } in
    let (mem', bs, run, w, all) = chunk_loop-Filled nr rs [] start v c in
    (
      make_separate mem',
      bs,
      rw run refl,
      w.holds,
      w.gapped,
      λ a. ground (arith, all a),
      w.counted,
      λ a h. omega (arith, w.below a h, w.small),
    )
