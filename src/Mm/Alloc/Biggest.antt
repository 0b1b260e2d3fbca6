-- ===== src/Mm/Alloc/Biggest.antt =====
-- What `findBiggestHole` finds: the first of the longest holes below the swap area.
use mathlib.Core.List.{append_assoc}
use soi_24z.Base.{
  last_ptr-append, last_ptr, ℕ, zero, suc, ◌≤◌, ◌<◌, ◌+◌, ◌≡◌, refl, ap, ◌∙◌, sym, inl, inr, none,
  some, [], ◌∷◌, ◌++◌, arith, ltb, leb, if◌then◌else◌, ◌&&◌, Bool-cases, Ptr, Run, ok, length, All,
  All-append, All-map, ltb→lt,
}
use soi_24z.Mm.Alloc.{Found, better, find_biggest_hole}
use soi_24z.Mm.Alloc.Search.{Unfit, NoLonger, Above, Gapped-Above}
use soi_24z.Mm.Holes.{HoleTable}
use soi_24z.Mm.Holes.Blocks.{Block, Gapped}
use soi_24z.Mm.Holes.Chain.{Cells, slots, slots-append, Seg}
use soi_24z.Mm.Holes.Merge.{blocks, blocks-append}

abbrev pub Shorter : ℕ → Block → Type 0
Shorter m (b, n) = n < m

abbrev pub UpTo : ℕ → Block → Type 0
UpTo m (b, n) = n ≤ m

-- The choice among the holes `passed`.
data Best (t : HoleTable) (sb clicks : ℕ) (passed : Cells) (best : Found) : Type 0 where
  no_best : All (Shorter clicks) (blocks passed) → best ≡ none → Best t sb clicks passed best
  is_best :
      (pre : Cells) (i b n : ℕ) (suf : Cells)
      → passed ≡ pre ++ (i, b, n) ∷ suf
      → b < sb
      → clicks ≤ n
      → (t.hole i).h_len ≡ n
      → All (Shorter n) (blocks pre)
      → All (UpTo n) (blocks suf)
      → best ≡ some (last_ptr none (slots pre), i)
      → Best t sb clicks passed best

All-blocks :
    (P : Block → Type 0) (cs ds : Cells)
    → All P (blocks cs)
    → All P (blocks ds)
    → All P (blocks (cs ++ ds))
All-blocks P cs ds p q = rw blocks-append (All-append P (blocks cs) (blocks ds) p q)

module _ (t : HoleTable) (sb clicks : ℕ) where
  Best-step :
      (passed : Cells) (i b n : ℕ) (prev_ptr : Ptr) (best : Found)
      → prev_ptr ≡ last_ptr none (slots passed)
      → (t.hole i).h_len ≡ n
      → b < sb
      → Best t sb clicks passed best
      → Best t sb clicks
          (passed ++ (i, b, n) ∷ [])
          (if better clicks best i t then some (prev_ptr, i) else best)
  unfolding better
  Best-step passed i b n prev_ptr best eq en low (no_best all e) =
      elim (Bool-cases (leb clicks n)) [
        | inl big ↦
            let short =
              All-map (Shorter clicks) (Shorter n) (λ c p. ground arith) (blocks passed) all in
            rw (e, better)
              (rw (en, big) (is_best passed i b n [] refl low (ground arith) en short tt (rw eq)))
        | inr small ↦
            rw (e, better)
              (rw (en, small)
                (no_best
                  (All-blocks (Shorter clicks) passed ((i, b, n) ∷ []) all (ground arith, tt))
                  refl))
      ]
  Best-step passed i b n prev_ptr best eq en low
        (is_best pre j b' n' suf split low' le len short long e) =
      elim (Bool-cases (leb clicks n && ltb n' n)) [
        | inl big ↦
            let front = All-map (Shorter n') (Shorter n) (λ c p. ground arith) (blocks pre) short in
            let back = All-map (UpTo n') (Shorter n) (λ c p. ground arith) (blocks suf) long in
            let all : All (Shorter n) (blocks passed) =
              rw split
                (All-blocks (Shorter n) pre ((j, b', n') ∷ suf) front (ground arith, back)) in
            rw (e, better)
              (rw (en, len, big)
                (is_best passed i b n [] refl low (ground arith) en all tt (rw eq)))
        | inr small ↦
            rw (e, better)
              (rw (en, len, small)
                (is_best pre j b' n' (suf ++ (i, b, n) ∷ [])
                  (ap (λ (l : Cells). l ++ (i, b, n) ∷ []) split
                    ∙ append_assoc pre ((j, b', n') ∷ suf) ((i, b, n) ∷ []))
                  low' le len short
                  (All-blocks (UpTo n') suf ((i, b, n) ∷ []) long (ground arith, tt)) refl))
      ]

-- What `findBiggestHole` returns for the holes `cs`.
pub data WorstFit (sb clicks : ℕ) (cs : Cells) (r : Run Found) : Type 0 where
  fits :
      (pre : Cells) (i b n : ℕ) (suf : Cells)
      → cs ≡ pre ++ (i, b, n) ∷ suf
      → b < sb
      → clicks ≤ n
      → All (Shorter n) (blocks pre)
      → All (NoLonger sb n) (blocks suf)
      → r ≡ ok (some (last_ptr none (slots pre), i))
      → WorstFit sb clicks cs r
  none_fits : All (Unfit sb clicks) (blocks cs) → r ≡ ok none → WorstFit sb clicks cs r

module _ (t : HoleTable) (sb clicks : ℕ) where
  -- The loop ends with the choice among the holes passed, and the rest lies in the swap area.
  WorstFit-done :
      (passed rest : Cells) (best : Found) (r : Run Found)
      → All (Above sb) (blocks rest)
      → r ≡ ok best
      → Best t sb clicks passed best
      → WorstFit sb clicks (passed ++ rest) r
  WorstFit-done passed rest best r above run (no_best all e) =
      let front = All-map (Shorter clicks) (Unfit sb clicks) (λ c p. inr p) (blocks passed) all in
      let back = All-map (Above sb) (Unfit sb clicks) (λ c p. inl p) (blocks rest) above in
      none_fits (All-blocks (Unfit sb clicks) passed rest front back) (rw e at run)
  WorstFit-done passed rest best r above run (is_best pre j b n suf split low le len short long e) =
      let front = All-map (UpTo n) (NoLonger sb n) (λ c p. inr p) (blocks suf) long in
      let back = All-map (Above sb) (NoLonger sb n) (λ c p. inl p) (blocks rest) above in
      fits pre j b n (suf ++ rest)
        (ap (λ (l : Cells). l ++ rest) split ∙ append_assoc pre ((j, b, n) ∷ suf) rest) low le short
        (All-blocks (NoLonger sb n) suf rest front back) (rw e at run)

  find_biggest_hole-WorstFit :
      (fuel lo : ℕ) (hp prev_ptr : Ptr) (best : Found) (cs passed : Cells)
      → Seg t.hole hp cs none
      → Gapped lo (blocks cs)
      → length cs < fuel
      → prev_ptr ≡ last_ptr none (slots passed)
      → Best t sb clicks passed best
      → WorstFit sb clicks (passed ++ cs) (find_biggest_hole fuel sb clicks prev_ptr hp best t)
  unfolding find_biggest_hole
  find_biggest_hole-WorstFit zero lo hp prev_ptr best cs passed s g h eq bst = absurd (omega arith)
  find_biggest_hole-WorstFit (suc k) lo hp prev_ptr best [] passed s g h eq bst =
      WorstFit-done passed [] best _ tt (rw (s, find_biggest_hole)) bst
  find_biggest_hole-WorstFit (suc k) lo hp prev_ptr best ((i, b, n) ∷ cs) passed (e, eb, en, s) g h
        eq bst =
      let best' : Found = if better clicks best i t then some (prev_ptr, i) else best in
      let ih = λ (low : b < sb).
        find_biggest_hole-WorstFit k (suc (b + n)) (t.hole i).h_next (some i) best' cs
          (passed ++ (i, b, n) ∷ []) s g.3 (omega arith)
          (sym (
            ap (last_ptr none) (slots-append passed ((i, b, n) ∷ []))
            ∙ last_ptr-append none (slots passed) i))
          (Best-step t sb clicks passed i b n prev_ptr best eq en low bst) in
      elim (Bool-cases (ltb b sb)) [
        | inl low ↦
            let found = rw (append_assoc passed ((i, b, n) ∷ []) cs) at (ih (ltb→lt b sb low)) in
            rw (e, find_biggest_hole) (rw (eb, low) found)
        | inr high ↦
            let above = Gapped-Above (suc (b + n)) sb (blocks cs) (ground arith) g.3 in
            WorstFit-done passed ((i, b, n) ∷ cs) best _ (ground arith, above)
              (rw (e, find_biggest_hole) (rw (eb, high))) bst
      ]

  pub find_biggest_hole-all :
      (fuel lo : ℕ) (hp : Ptr) (cs : Cells)
      → Seg t.hole hp cs none
      → Gapped lo (blocks cs)
      → length cs < fuel
      → WorstFit sb clicks cs (find_biggest_hole fuel sb clicks none hp none t)
  find_biggest_hole-all fuel lo hp cs s g h =
      find_biggest_hole-WorstFit fuel lo hp none none cs [] s g h refl (no_best tt refl)
