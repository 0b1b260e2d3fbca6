-- ===== src/Mm/Swap/Sound.antt =====
-- Where the memory of the processes lies, beside the holes: no address is used twice.
use soi_24z.Base.{
  last_ptr, ℕ, ◌≤◌, ◌<◌, ◌+◌, ◌^◌, ◌≡◌, sym, ap, ◌∙◌, subst, ◌⊎◌, inl, inr, Bool, true, false, none,
  List, ◌∷◌, ◌++◌, arith, ◌==◌, ltb, ltb→lt, Bool-cases, eq_of_==, ok, panic, length,
}
use soi_24z.Mm.Alloc.{bite}
use soi_24z.Mm.Alloc.Back.{shrink-Gapped, shrink-Clear}
use soi_24z.Mm.Alloc.Bite.{shrink, bite-Bitten}
use soi_24z.Mm.Alloc.Fit.{Gapped-at}
use soi_24z.Mm.Holes.{HoleTable, free_mem}
use soi_24z.Mm.Holes.Blocks.{Block, Gapped, Clear, free_blocks, free_blocks-Gapped}
use soi_24z.Mm.Holes.Chain.{Cells, slots}
use soi_24z.Mm.Holes.Free.{blocks-length, free_mem-free_blocks, free_mem-full}
use soi_24z.Mm.Holes.Merge.{blocks, blocks-append, Holds}
use soi_24z.Mm.Swap.Place.{Off, Off-sym, Clear-shrink, Clear-at, Clear-free_blocks}

module _ (nr_holes : ℕ) (live : ℕ → Bool) where
  -- A well-formed hole table, and the blocks of the processes that are `live`, none of them empty,
  -- none with an address of a hole or of another process.
  pub record Layout (t : HoleTable) (base size : ℕ → ℕ) : Type 0 where
    pub holes : List Block
    pub holds : Holds nr_holes t holes
    pub gapped : Gapped 0 holes
    pub used : (i : ℕ) → live i ≡ true → 0 < size i
    pub fits : (i : ℕ) → live i ≡ true → base i + size i < 2 ^ 32
    pub clear : (i : ℕ) → live i ≡ true → Clear (base i) (size i) holes
    pub apart :
        (i j : ℕ)
        → live i ≡ true
        → live j ≡ true
        → (i == j) ≡ false
        → Off (base i) (size i) (base j) (size j)

  -- A layout in which the block of `n` clicks from `b` is neither a hole nor a process.
  pub record Reserved (t : HoleTable) (base size : ℕ → ℕ) (b n : ℕ) : Type 0 where
    pub layout : Layout t base size
    pub clear_of : Clear b n layout.holes
    pub off : (i : ℕ) → live i ≡ true → Off (base i) (size i) b n
    pub ends : b + n < 2 ^ 32

  -- Biting a piece off a hole reserves it.
  pub bitten-Reserved :
      (t : HoleTable) (base size : ℕ → ℕ) (l : Layout t base size) (t' : HoleTable)
      (pre : List Block) (b n clicks : ℕ) (suf : List Block)
      → l.holes ≡ pre ++ (b, n) ∷ suf
      → clicks ≤ n
      → Holds nr_holes t' (pre ++ shrink b n clicks suf)
      → Reserved t' base size b clicks
  bitten-Reserved t base size l t' pre b n clicks suf split le h =
      let g : Gapped 0 (pre ++ (b, n) ∷ suf) = subst (Gapped 0) split l.gapped in
      let at = Gapped-at 0 pre b n suf g in
      let c : (i : ℕ) → live i ≡ true → Clear (base i) (size i) (pre ++ (b, n) ∷ suf) =
        λ i on. subst (Clear (base i) (size i)) split (l.clear i on) in
      record {
        layout = record {
          holes = pre ++ shrink b n clicks suf;
          holds = h;
          gapped = shrink-Gapped 0 pre b n clicks suf le g;
          used = l.used;
          fits = l.fits;
          clear = λ i on. Clear-shrink (base i) (size i) pre b n clicks suf le (c i on);
          apart = l.apart;
        };
        clear_of = shrink-Clear 0 pre b n clicks suf le g;
        off = λ i on. Clear-at (base i) (size i) pre b n clicks suf le (c i on);
        ends = omega (arith, at.2);
      }

  -- The outcome of a bite from the hole `i`.
  pub bite-Reserved :
      (t : HoleTable) (base size : ℕ → ℕ) (l : Layout t base size) (pre : Cells) (i b n : ℕ)
      (suf : Cells) (clicks : ℕ)
      → l.holds.cells ≡ pre ++ (i, b, n) ∷ suf
      → clicks ≤ n
      → (t' : HoleTable) × (bite clicks (last_ptr none (slots pre)) i t ≡ ok (b, t'))
        × Reserved t' base size b clicks
  bite-Reserved t base size l pre i b n suf clicks split le =
      let h = l.holds in
      let view : l.holes ≡ blocks pre ++ (b, n) ∷ blocks suf =
        sym h.view ∙ (ap blocks split ∙ blocks-append pre ((i, b, n) ∷ suf)) in
      let at = Gapped-at 0 (blocks pre) b n (blocks suf) (subst (Gapped 0) view l.gapped) in
      let (t', run, out) =
        bite-Bitten nr_holes t pre i b n suf h.free none clicks (rw split at h.is_holes)
          (rw split at h.all_slots) le at.1 at.2 in
      (t', run, bitten-Reserved t base size l t' (blocks pre) b n clicks (blocks suf) view le out)

  module _ (t : HoleTable) (base size : ℕ → ℕ) (i b : ℕ) (base' size' : ℕ → ℕ) (on : live i ≡ true)
      (r : Reserved t base size b (size i)) (eb : base' i ≡ b) (es : size' i ≡ size i)
      (rest : (j : ℕ) → (j == i) ≡ false → (base' j ≡ base j) × (size' j ≡ size j)) where
    -- What holds of the new block of `i` and of the blocks of the others.
    at_place :
        (P : ℕ → ℕ → Type 0) (j : ℕ)
        → ((j ≡ i) → P b (size i))
        → ((j == i) ≡ false → P (base j) (size j))
        → P (base' j) (size' j)
    at_place P j here there = elim (Bool-cases (j == i)) [
      | inl same ↦
          let e : j ≡ i = eq_of_== j i same in
          subst (λ k. P (base' k) (size' k)) (sym e)
            (subst (λ x. P x (size' i)) (sym eb) (subst (λ y. P b y) (sym es) (here e)))
      | inr other ↦
          let (xb, xs) = rest j other in
          subst (λ x. P x (size' j)) (sym xb) (subst (λ y. P (base j) y) (sym xs) (there other))
    ]

    moved-Layout :
        (t' : HoleTable)
        → Holds nr_holes t' (free_blocks (base i) (size i) r.layout.holes)
        → Layout t' base' size'
    moved-Layout t' h =
        let l = r.layout in
        let freed = free_blocks (base i) (size i) l.holes in
        let here : Clear b (size i) freed =
          Clear-free_blocks b (size i) (base i) (size i) l.holes (l.used i on)
            (Off-sym (base i) (size i) b (size i) (r.off i on)) r.clear_of in
        record {
          holes = freed;
          holds = h;
          gapped =
              free_blocks-Gapped 0 (base i) (size i) l.holes (omega arith) (l.used i on)
                (l.fits i on) (l.clear i on) l.gapped;
          used = λ j lj. at_place (λ x y. 0 < y) j (λ _. l.used i on) (λ _. l.used j lj);
          fits = λ j lj. at_place (λ x y. x + y < 2 ^ 32) j (λ _. r.ends) (λ _. l.fits j lj);
          clear = λ j lj.
              at_place (λ x y. Clear x y freed) j (λ _. here)
                (λ o.
                  Clear-free_blocks (base j) (size j) (base i) (size i) l.holes (l.used j lj)
                    (l.apart j i lj on o) (l.clear j lj));
          apart = λ j k lj lk ne.
              at_place (λ x y. Off x y (base' k) (size' k)) j
                (λ ej.
                  at_place (λ x y. Off b (size i) x y) k (λ ek. absurd (ground (arith, ej, ek, ne)))
                    (λ ok'. Off-sym (base k) (size k) b (size i) (r.off k lk)))
                (λ oj.
                  at_place (λ x y. Off (base j) (size j) x y) k (λ _. r.off j lj)
                    (λ ok'. l.apart j k lj lk ne));
        }

    -- With the process `i` moved to the reserved block its old block is freed, if there is an
    -- entry left.
    pub relocate :
        ((free_mem nr_holes (base i) (size i) t ≡ panic) × (length r.layout.holes ≡ nr_holes))
        ⊎ ((t' : HoleTable) × (free_mem nr_holes (base i) (size i) t ≡ ok t')
            × Layout t' base' size')
    relocate =
        let l = r.layout in
        let few : length l.holes ≤ nr_holes =
          omega
            (arith, l.holds.all_slots, blocks-length l.holds.cells, ap (length {0}) l.holds.view) in
        elim (Bool-cases (ltb (length l.holes) nr_holes)) [
          | inr full ↦
              let all : length l.holes ≡ nr_holes = ground (arith, full, few) in
              inl
                (free_mem-full nr_holes t l.holes (base i) (size i) l.holds (l.used i on) all, all)
          | inl room ↦
              let (t', run, out) =
                free_mem-free_blocks nr_holes t l.holes (base i) (size i) l.holds l.gapped
                  (l.clear i on) (l.used i on) (l.fits i on)
                  (ltb→lt (length l.holes) nr_holes room) in
              inr (t', run, moved-Layout t' out)
        ]
