-- ===== src/Mm/Swap/Alloc.antt =====
-- alloc_mem with its loop over swap_out.
use soi_24z.Base.{
  ℕ, zero, suc, List, ◌+◌, ◌<◌, ◌≡◌, Bool, Option, none, some, if◌then◌else◌, Run, ok, panic, All,
  Ptr,
}
use soi_24z.Mm.Alloc.{try_alloc}
use soi_24z.Mm.Alloc.Search.{Unfit}
use soi_24z.Mm.Holes.{HoleTable}
use soi_24z.Mm.Holes.Blocks.{Block}
use soi_24z.Mm.Swap.{Mproc, Memory, swap_out}
use soi_24z.Mm.Swap.Out.{base_of, size_of, IsSound, Crowded}
use soi_24z.Mm.Swap.Sound.{Reserved}

-- How many of the first `n` processes are not on the swap area.
abbrev pub in_memory : ℕ → (ℕ → Mproc) → ℕ
in_memory zero f = 0
in_memory (suc n) f = in_memory n f + (if (f n).onswap then 0 else 1)

-- What no allocation changes.
pub record Steps (m m' : Memory) : Type 0 where
  pub links : (j : ℕ) → (m'.mproc j).mp_swapq ≡ (m.mproc j).mp_swapq
  pub queued : (j : ℕ) → (m'.mproc j).swapin ≡ (m.mproc j).swapin
  pub sizes : (j : ℕ) → size_of m' j ≡ size_of m j
  pub first : m'.in_queue ≡ m.in_queue
  pub bound : m'.swap_base ≡ m.swap_base

module _ (nr_holes : ℕ) (live : ℕ → Bool) where
  -- One search for a hole.
  data Round (m : Memory) (clicks : ℕ) (hs : List Block) (r : Run (Option (ℕ × HoleTable)))
      : Type 0 where
    got :
        (b : ℕ) (t : HoleTable)
        → r ≡ ok (some (b, t))
        → b < m.swap_base
        → Reserved nr_holes live t (base_of m) (size_of m) b clicks
        → Round m clicks hs r
    nothing : r ≡ ok none → All (Unfit m.swap_base clicks) hs → Round m clicks hs r

module _ (nr_holes click_shift low nr : ℕ) (live : ℕ → Bool) where
  -- From the first state the second one is reached by calls of `swap_out`, each behind a search for
  -- `clicks` that found nothing.
  pub data Swaps (clicks : ℕ) : Memory → Memory → Type 0 where
    start : {m : Memory} → Swaps clicks m m
    swap :
        {m m1 m2 : Memory}
        → try_alloc nr_holes m.swap_base clicks m.is_worst_fit m.table ≡ ok none
        → swap_out nr_holes click_shift low nr m ≡ ok (some m1)
        → Swaps clicks m1 m2
        → Swaps clicks m m2

  -- What became of a request for `clicks`.
  pub data Allocated (m : Memory) (clicks : ℕ) (r : Run (Ptr × Memory)) : Type 0 where
    full :
        (m' : Memory)
        → Swaps clicks m m'
        → Crowded nr_holes click_shift low nr live m'
        → r ≡ panic
        → Steps m m'
        → Allocated m clicks r
    no_room :
        (m' : Memory) (s : IsSound nr_holes click_shift low nr live m')
        → r ≡ ok (none, m')
        → Swaps clicks m m'
        → swap_out nr_holes click_shift low nr m' ≡ ok none
        → All (Unfit m.swap_base clicks) s.layout.holes
        → Steps m m'
        → Allocated m clicks r
    given :
        (b : ℕ) (m' : Memory)
        → IsSound nr_holes click_shift low nr live m'
        → r ≡ ok (some b, m')
        → b < m.swap_base
        → Reserved nr_holes live m'.table (base_of m') (size_of m') b clicks
        → Steps m m'
        → Allocated m clicks r
