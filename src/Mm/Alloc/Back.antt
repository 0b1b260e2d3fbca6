-- ===== src/Mm/Alloc/Back.antt =====
-- A piece that is taken from a hole and given back.
use soi_24z.Base.{
  ℕ, suc, ◌≤◌, ◌<◌, ◌+◌, ◌-◌, ◌≡◌, refl, ◌∙◌, inl, inr, Bool, true, false, Option, some, List, [],
  ◌∷◌, ◌++◌, arith, ◌==◌, Bool-cases, Run, ok, length, length-append, eq_of_==,
}
use soi_24z.Mm.Alloc.{try_alloc}
use soi_24z.Mm.Alloc.Bite.{shrink}
use soi_24z.Mm.Alloc.Fit.{Gapped-at, Allocation, taken, refused, try_alloc-first, try_alloc-worst}
use soi_24z.Mm.Holes.{HoleTable, free_mem}
use soi_24z.Mm.Holes.Blocks.{
  Block, Gapped, Clear, From, free_blocks, join, join-Gapped, Gapped-From, free_blocks-From,
  Gapped-mono,
}
use soi_24z.Mm.Holes.Free.{free_mem-free_blocks}
use soi_24z.Mm.Holes.Merge.{Holds, Yields, Holds_at}

-- The holes stay in order and apart.
pub shrink-Gapped :
    (lo : ℕ) (pre : List Block) (b n clicks : ℕ) (suf : List Block)
    → clicks ≤ n
    → Gapped lo (pre ++ (b, n) ∷ suf)
    → Gapped lo (pre ++ shrink b n clicks suf)
shrink-Gapped lo [] b n clicks suf le g = elim (Bool-cases (n == clicks)) [
  | inl whole ↦ rw whole (Gapped-mono (suc (b + n)) lo suf (omega (arith, g.0)) g.3)
  | inr part ↦
      let end : b + clicks + (n - clicks) ≡ b + n = omega arith in
      rw (part, end) (omega (arith, g.0), ground arith, g.2, g.3)
]
shrink-Gapped lo ((b0, n0) ∷ pre) b n clicks suf le g =
    (g.0, g.1, g.2, shrink-Gapped (suc (b0 + n0)) pre b n clicks suf le g.3)

Gapped-Clear : (lo b n : ℕ) (bs : List Block) → b + n ≤ lo → Gapped lo bs → Clear b n bs
Gapped-Clear lo b n [] h g = tt
Gapped-Clear lo b n ((b', n') ∷ bs) h g =
    (inl (omega (arith, g.0)), Gapped-Clear (suc (b' + n')) b n bs (omega (arith, g.0)) g.3)

-- The piece taken shares no address with what is left.
pub shrink-Clear :
    (lo : ℕ) (pre : List Block) (b n clicks : ℕ) (suf : List Block)
    → clicks ≤ n
    → Gapped lo (pre ++ (b, n) ∷ suf)
    → Clear b clicks (pre ++ shrink b n clicks suf)
shrink-Clear lo [] b n clicks suf le g =
    let later = Gapped-Clear (suc (b + n)) b clicks suf (omega arith) g.3 in
    elim (Bool-cases (n == clicks)) [
      | inl whole ↦ rw whole later
      | inr part ↦ rw part (inl (omega arith), later)
    ]
shrink-Clear lo ((b0, n0) ∷ pre) b n clicks suf le g =
    let at = Gapped-at (suc (b0 + n0)) pre b n suf g.3 in
    (inr (omega (arith, at.0)), shrink-Clear (suc (b0 + n0)) pre b n clicks suf le g.3)

-- Freeing it restores the holes.
free_blocks-shrink :
    (lo : ℕ) (pre : List Block) (b n clicks : ℕ) (suf : List Block)
    → clicks ≤ n
    → Gapped lo (pre ++ (b, n) ∷ suf)
    → free_blocks b clicks (pre ++ shrink b n clicks suf) ≡ pre ++ (b, n) ∷ suf
unfolding free_blocks join
free_blocks-shrink lo [] b n clicks suf le g =
    let later = Gapped-From (suc (b + n)) suf g.3 in
    elim (Bool-cases (n == clicks)) [
      | inl whole ↦
          rw (whole, ← eq_of_== n clicks whole)
            (free_blocks-From b n suf (From_mono suf later)
              ∙ join-Gapped b n (b + n) suf refl later)
      | inr part ↦ rw part (ground arith)
    ]
  where
    From_mono : (bs : List Block) → From (suc (b + n)) bs → From b bs
    From_mono [] h = tt
    From_mono ((b', n') ∷ bs) h = omega arith
free_blocks-shrink lo ((b0, n0) ∷ pre) b n clicks suf le g =
    let at = Gapped-at (suc (b0 + n0)) pre b n suf g.3 in
    let ih = free_blocks-shrink (suc (b0 + n0)) pre b n clicks suf le g.3 in
    let kept =
      join-Gapped b0 n0 (b0 + n0) (pre ++ (b, n) ∷ suf) refl
        (Gapped-From (suc (b0 + n0)) (pre ++ (b, n) ∷ suf) g.3) in
    ground (arith, ih, kept, at.0)

length-shrink :
    (b n clicks : ℕ) (suf : List Block) → length (shrink b n clicks suf) ≤ suc (length suf)
length-shrink b n clicks suf = ground arith

free_mem-shrink :
    (nr_holes : ℕ) (t : HoleTable) (pre : List Block) (b n clicks : ℕ) (suf : List Block)
    → Gapped 0 (pre ++ (b, n) ∷ suf)
    → 0 < clicks
    → clicks ≤ n
    → length (pre ++ (b, n) ∷ suf) < nr_holes
    → Holds nr_holes t (pre ++ shrink b n clicks suf)
    → Yields nr_holes (free_mem nr_holes b clicks t) (pre ++ (b, n) ∷ suf)
free_mem-shrink nr t pre b n clicks suf g pos le room h =
    let at = Gapped-at 0 pre b n suf g in
    Holds_at refl (free_blocks-shrink 0 pre b n clicks suf le g) (
      free_mem-free_blocks nr t (pre ++ shrink b n clicks suf) b clicks h
        (shrink-Gapped 0 pre b n clicks suf le g) (shrink-Clear 0 pre b n clicks suf le g) pos
        (omega (arith, at.2))
        (omega (
          arith,
          room,
          length-shrink b n clicks suf,
          length-append {0} pre (shrink b n clicks suf),
          length-append {0} pre ((b, n) ∷ suf),
        )))

free_mem-Allocation :
    (nr : ℕ) (bs : List Block) (sb clicks : ℕ) (Chosen : List Block → ℕ → List Block → Type 0)
    (r : Run (Option (ℕ × HoleTable))) (b : ℕ) (t : HoleTable)
    → Gapped 0 bs
    → 0 < clicks
    → length bs < nr
    → Allocation nr bs sb clicks Chosen r
    → r ≡ ok (some (b, t))
    → Yields nr (free_mem nr b clicks t) bs
free_mem-Allocation nr bs sb clicks C r b t g pos room (refused all e) h = absurd (cc)
free_mem-Allocation nr bs sb clicks C r b t g pos room (taken pre b' n suf t' view low le c e out)
      h =
    let same : t' ≡ t = cc in
    let base : b' ≡ b = cc in
    rw (view, ← same, ← base)
      (free_mem-shrink nr t' pre b' n clicks suf (rw view at g) pos le (rw view at room) out)

-- In a well-formed table, its holes in order and apart, `free_mem` undoes an allocation by either
-- strategy: freeing the piece that was taken gives the holes that there were, if an entry of the
-- table was unused.
pub free_mem-try_alloc :
    (nr_holes : ℕ) (t t' : HoleTable) (bs : List Block) (sb clicks b : ℕ) (is_worst_fit : Bool)
    → Holds nr_holes t bs
    → Gapped 0 bs
    → 0 < clicks
    → length bs < nr_holes
    → try_alloc nr_holes sb clicks is_worst_fit t ≡ ok (some (b, t'))
    → Yields nr_holes (free_mem nr_holes b clicks t') bs
free_mem-try_alloc nr t t' bs sb clicks b false h g pos room e =
    free_mem-Allocation nr bs sb clicks _ _ b t' g pos room (try_alloc-first nr t bs sb clicks h g)
      e
free_mem-try_alloc nr t t' bs sb clicks b true h g pos room e =
    free_mem-Allocation nr bs sb clicks _ _ b t' g pos room (try_alloc-worst nr t bs sb clicks h g)
      e
