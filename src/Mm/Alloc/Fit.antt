-- ===== src/Mm/Alloc/Fit.antt =====
-- One round of `alloc_mem`: which hole it takes, and what it leaves.
use soi_24z.Base.{
  last_ptr, ℕ, suc, ◌≤◌, ◌<◌, ◌+◌, ◌^◌, ◌≡◌, ap, ◌∙◌, sym, Bool, true, false, Option, none, some,
  List, [], ◌∷◌, ◌++◌, arith, Run, ok, length, All, subst,
}
use soi_24z.Mm.Alloc.{search_hole, try_alloc}
use soi_24z.Mm.Alloc.Biggest.{Shorter, WorstFit, find_biggest_hole-all}
use soi_24z.Mm.Alloc.Bite.{shrink, bite-Bitten}
use soi_24z.Mm.Alloc.Search.{Unfit, NoLonger, FirstFit, first_fit-FirstFit}
use soi_24z.Mm.Holes.{HoleTable}
use soi_24z.Mm.Holes.Blocks.{Block, Gapped}
use soi_24z.Mm.Holes.Chain.{Cells, slots}
use soi_24z.Mm.Holes.Merge.{blocks, blocks-append, Holds}

-- What became of a request: a piece of one hole, chosen by `Chosen` among all, or nothing, as no
-- hole below the swap area is big enough.
pub data Allocation (nr_holes : ℕ) (bs : List Block) (sb clicks : ℕ)
    (Chosen : List Block → ℕ → List Block → Type 0) (r : Run (Option (ℕ × HoleTable)))
    : Type 0 where
  taken :
      (pre : List Block) (b n : ℕ) (suf : List Block) (t : HoleTable)
      → bs ≡ pre ++ (b, n) ∷ suf
      → b < sb
      → clicks ≤ n
      → Chosen pre n suf
      → r ≡ ok (some (b, t))
      → Holds nr_holes t (pre ++ shrink b n clicks suf)
      → Allocation nr_holes bs sb clicks Chosen r
  refused : All (Unfit sb clicks) bs → r ≡ ok none → Allocation nr_holes bs sb clicks Chosen r

-- First fit: all holes in front are too small.
abbrev pub FirstChosen : (sb clicks : ℕ) → List Block → ℕ → List Block → Type 0
FirstChosen sb clicks pre n suf = All (Unfit sb clicks) pre

-- Worst fit: those in front are shorter, those behind no longer.
abbrev pub WorstChosen : (sb : ℕ) → List Block → ℕ → List Block → Type 0
WorstChosen sb pre n suf = All (Shorter n) pre × All (NoLonger sb n) suf

pub Gapped-at :
    (lo : ℕ) (pre : List Block) (b n : ℕ) (suf : List Block)
    → Gapped lo (pre ++ (b, n) ∷ suf)
    → (lo ≤ b) × (0 < n) × (b + n < 2 ^ 32) × Gapped (suc (b + n)) suf
Gapped-at lo [] b n suf g = g
Gapped-at lo ((b0, n0) ∷ pre) b n suf g =
    let (h, pos, fits, later) = Gapped-at (suc (b0 + n0)) pre b n suf g.3 in
    (omega (arith, g.0), pos, fits, later)

module _ (nr : ℕ) (t : HoleTable) (bs : List Block) (sb clicks : ℕ) (h : Holds nr t bs)
    (g : Gapped 0 bs) (Chosen : List Block → ℕ → List Block → Type 0) (worst : Bool) where
  Allocation-taken :
      (pre : Cells) (i b n : ℕ) (suf : Cells)
      → h.cells ≡ pre ++ (i, b, n) ∷ suf
      → b < sb
      → clicks ≤ n
      → Chosen (blocks pre) n (blocks suf)
      → search_hole nr sb clicks worst t ≡ ok (some (last_ptr none (slots pre), i))
      → Allocation nr bs sb clicks Chosen (try_alloc nr sb clicks worst t)
  unfolding try_alloc
  Allocation-taken pre i b n suf split low le chosen found =
      let view : bs ≡ blocks pre ++ (b, n) ∷ blocks suf =
        sym h.view ∙ (ap blocks split ∙ blocks-append pre ((i, b, n) ∷ suf)) in
      let (lo, pos, fits, later) = Gapped-at 0 (blocks pre) b n (blocks suf) (rw view at g) in
      let (t', run, out) =
        bite-Bitten nr t pre i b n suf h.free none clicks (rw split at h.is_holes)
          (rw split at h.all_slots) le pos fits in
      taken (blocks pre) b n (blocks suf) t' view low le chosen (rw (found, run)) out

  Allocation-refused :
      All (Unfit sb clicks) (blocks h.cells)
      → search_hole nr sb clicks worst t ≡ ok none
      → Allocation nr bs sb clicks Chosen (try_alloc nr sb clicks worst t)
  unfolding try_alloc
  Allocation-refused all found = refused (subst (All (Unfit sb clicks)) h.view all) (rw found)

  cells_few : length h.cells < suc nr
  cells_few = omega (arith, h.all_slots)

  cells-Gapped : Gapped 0 (blocks h.cells)
  cells-Gapped = rw h.view g

-- In a well-formed table, its holes in order and apart, with first fit a request takes the front
-- of the first hole below the swap area that is big enough, and fails only if there is none.
pub try_alloc-first :
    (nr_holes : ℕ) (t : HoleTable) (bs : List Block) (sb clicks : ℕ)
    → Holds nr_holes t bs
    → Gapped 0 bs
    → Allocation nr_holes bs sb clicks
        (FirstChosen sb clicks)
        (try_alloc nr_holes sb clicks false t)
unfolding search_hole
try_alloc-first nr t bs sb clicks h g =
    elim (first_fit-FirstFit t sb clicks (suc nr) 0 none t.hole_head h.cells h.is_holes.holes
      (cells-Gapped nr t bs sb clicks h g (FirstChosen sb clicks) false)
      (cells_few nr t bs sb clicks h g (FirstChosen sb clicks) false)) [
        | FirstFit.fits pre i b n suf split all low le found ↦
            Allocation-taken nr t bs sb clicks h g (FirstChosen sb clicks) false pre i b n suf split
              low le all found
        | FirstFit.none_fits all found ↦
            Allocation-refused nr t bs sb clicks h g (FirstChosen sb clicks) false all found
      ]

-- In a well-formed table, its holes in order and apart, with worst fit a request takes the front
-- of the first of the longest holes below the swap area, and fails only if none there is big
-- enough.
pub try_alloc-worst :
    (nr_holes : ℕ) (t : HoleTable) (bs : List Block) (sb clicks : ℕ)
    → Holds nr_holes t bs
    → Gapped 0 bs
    → Allocation nr_holes bs sb clicks (WorstChosen sb) (try_alloc nr_holes sb clicks true t)
unfolding search_hole
try_alloc-worst nr t bs sb clicks h g =
    elim (find_biggest_hole-all t sb clicks (suc nr) 0 t.hole_head h.cells h.is_holes.holes
      (cells-Gapped nr t bs sb clicks h g (WorstChosen sb) true)
      (cells_few nr t bs sb clicks h g (WorstChosen sb) true)) [
        | WorstFit.fits pre i b n suf split low le short long found ↦
            Allocation-taken nr t bs sb clicks h g (WorstChosen sb) true pre i b n suf split low le
              (short, long) found
        | WorstFit.none_fits all found ↦
            Allocation-refused nr t bs sb clicks h g (WorstChosen sb) true all found
      ]
