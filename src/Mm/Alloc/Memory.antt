-- ===== src/Mm/Alloc/Memory.antt =====
-- What allocation and freeing mean for the addresses of the memory.
use soi_24z.Base.{ℕ, ◌<◌, ◌+◌, ◌^◌, ◌≡◌, Bool, ◌&&◌, ◌||◌, List, arith, ltb, leb, ok, length}
use soi_24z.Mm.Holes.{HoleTable, free_mem}
use soi_24z.Mm.Holes.Blocks.{
  Block, Gapped, Clear, covers, total, free_blocks, free_blocks-Gapped, covers-free_blocks,
  total-free_blocks,
}
use soi_24z.Mm.Holes.Free.{free_mem-free_blocks}
use soi_24z.Mm.Holes.Merge.{Holds}

-- Is `a` one of the `n` addresses from `b`?
abbrev pub inside : (a b n : ℕ) → Bool
inside a b n = leb b a && ltb a (b + n)

-- Given a place in a well-formed table, for a block that shares no address with a hole and ends
-- below 2 ^ 32, `free_mem` adds exactly the freed addresses to the unused memory, and leaves holes
-- that are in order, not empty and that nowhere touch.
pub free_mem-covers :
    (nr_holes : ℕ) (t : HoleTable) (bs : List Block) (base clicks : ℕ)
    → Holds nr_holes t bs
    → Gapped 0 bs
    → Clear base clicks bs
    → 0 < clicks
    → base + clicks < 2 ^ 32
    → length bs < nr_holes
    → (t' : HoleTable) × (bs' : List Block) × (free_mem nr_holes base clicks t ≡ ok t')
      × Holds nr_holes t' bs'
      × Gapped 0 bs'
      × ((a : ℕ) → covers a bs' ≡ (inside a base clicks || covers a bs))
      × (total bs' ≡ clicks + total bs)
free_mem-covers nr t bs base clicks h g c pos fits room =
    let (t', run, out) = free_mem-free_blocks nr t bs base clicks h g c pos fits room in
    (
      t',
      free_blocks base clicks bs,
      run,
      out,
      free_blocks-Gapped 0 base clicks bs (omega arith) pos fits c g,
      λ a. covers-free_blocks a base clicks bs,
      total-free_blocks base clicks bs,
    )

-- The outcome of an allocation that returned the address `b`.
pub record Taken (nr_holes clicks b : ℕ) (bs : List Block) (t : HoleTable) : Type 0 where
  pub left : List Block
  pub holds : Holds nr_holes t left
  pub gapped : Gapped 0 left
  pub clear : Clear b clicks left
  pub addresses : (a : ℕ) → (inside a b clicks || covers a left) ≡ covers a bs
  pub sum : clicks + total left ≡ total bs
