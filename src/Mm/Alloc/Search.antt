-- ===== src/Mm/Alloc/Search.antt =====
-- What the two searches of `alloc_mem` find in a chain of holes.
use soi_24z.Base.{
  last_ptr, ℕ, zero, suc, ◌≤◌, ◌<◌, ◌+◌, ◌≡◌, refl, ap, ◌∙◌, ◌⊎◌, inl, inr, none, some, List, [],
  ◌∷◌, ◌++◌, arith, ltb, leb, Bool-cases, Ptr, Run, ok, length, All, All-map, ltb→lt,
}
use soi_24z.Mm.Alloc.{Found, first_fit}
use soi_24z.Mm.Holes.{HoleTable}
use soi_24z.Mm.Holes.Blocks.{Block, Gapped}
use soi_24z.Mm.Holes.Chain.{Cells, slots, Seg}
use soi_24z.Mm.Holes.Merge.{blocks}

-- The hole is in the swap area or smaller than `clicks`.
abbrev pub Unfit : (swap_base clicks : ℕ) → Block → Type 0
Unfit swap_base clicks (b, n) = (swap_base ≤ b) ⊎ (n < clicks)

-- The hole is in the swap area or no longer than `m`.
abbrev pub NoLonger : (swap_base m : ℕ) → Block → Type 0
NoLonger swap_base m (b, n) = (swap_base ≤ b) ⊎ (n ≤ m)

abbrev pub Above : ℕ → Block → Type 0
Above lo (b, n) = lo ≤ b

pub Gapped-Above : (lo hi : ℕ) (bs : List Block) → hi ≤ lo → Gapped lo bs → All (Above hi) bs
Gapped-Above lo hi [] h g = tt
Gapped-Above lo hi ((b, n) ∷ bs) h g =
    (omega arith, Gapped-Above (suc (b + n)) hi bs (omega arith) g.3)

pub data FirstFit (swap_base clicks : ℕ) (q : Ptr) (cs : Cells) (r : Run Found) : Type 0 where
  fits :
      (pre : Cells) (i b n : ℕ) (suf : Cells)
      → cs ≡ pre ++ (i, b, n) ∷ suf
      → All (Unfit swap_base clicks) (blocks pre)
      → b < swap_base
      → clicks ≤ n
      → r ≡ ok (some (last_ptr q (slots pre), i))
      → FirstFit swap_base clicks q cs r
  none_fits :
      All (Unfit swap_base clicks) (blocks cs) → r ≡ ok none → FirstFit swap_base clicks q cs r

FirstFit-cons :
    (swap_base clicks : ℕ) (q : Ptr) (i b n : ℕ) (cs : Cells) (r r' : Run Found)
    → n < clicks
    → r' ≡ r
    → FirstFit swap_base clicks (some i) cs r
    → FirstFit swap_base clicks q ((i, b, n) ∷ cs) r'
FirstFit-cons sb k q i b n cs r r' small e (fits pre j b' n' suf split all low le found) =
    fits ((i, b, n) ∷ pre) j b' n' suf (ap (λ (l : Cells). (i, b, n) ∷ l) split) (inr small, all)
      low le (e ∙ found)
FirstFit-cons sb k q i b n cs r r' small e (none_fits all found) =
    none_fits (inr small, all) (e ∙ found)

pub first_fit-FirstFit :
    (t : HoleTable) (sb clicks fuel lo : ℕ) (q hp : Ptr) (cs : Cells)
    → Seg t.hole hp cs none
    → Gapped lo (blocks cs)
    → length cs < fuel
    → FirstFit sb clicks q cs (first_fit fuel sb clicks q hp t)
unfolding first_fit
first_fit-FirstFit t sb clicks zero lo q hp cs s g h = absurd (omega arith)
first_fit-FirstFit t sb clicks (suc k) lo q hp [] s g h = none_fits tt (rw (s, first_fit))
first_fit-FirstFit t sb clicks (suc k) lo q hp ((i, b, n) ∷ cs) (e, eb, en, s) g h =
    elim (Bool-cases (ltb b sb)) [
      | inl low ↦ elim (Bool-cases (leb clicks n)) [
        | inl big ↦
            fits [] i b n cs refl tt (ltb→lt b sb low) (ground arith)
              (rw (e, first_fit) (rw (eb, low, en, big)))
        | inr small ↦
            FirstFit-cons sb clicks q i b n cs _ _ (ground arith)
              (rw (e, first_fit) (rw (eb, low, en, small)))
              (first_fit-FirstFit t sb clicks k (suc (b + n)) (some i) (t.hole i).h_next cs s g.3
                (omega arith))
      ]
      | inr high ↦
          let above = Gapped-Above (suc (b + n)) sb (blocks cs) (ground arith) g.3 in
          none_fits
            (ground arith, All-map (Above sb) (Unfit sb clicks) (λ c p. inl p) (blocks cs) above)
            (rw (e, first_fit) (rw (eb, high)))
    ]
