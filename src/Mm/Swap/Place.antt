-- ===== src/Mm/Swap/Place.antt =====
-- Blocks that share no address, and the search of swap_out for a hole of the swap area.
use soi_24z.Base.{
  last_ptr, ℕ, zero, suc, ◌≤◌, ◌<◌, ◌+◌, ◌≡◌, refl, ap, ◌∙◌, ◌⊎◌, inl, inr, ◌&&◌, none, some, List,
  [], ◌∷◌, ◌++◌, arith, ◌==◌, ltb, leb, Bool-cases, Ptr, Run, ok, length,
}
use soi_24z.Mm.Alloc.{Found, find_swap}
use soi_24z.Mm.Alloc.Bite.{shrink}
use soi_24z.Mm.Holes.{HoleTable}
use soi_24z.Mm.Holes.Blocks.{Block, Clear, join, free_blocks}
use soi_24z.Mm.Holes.Chain.{Cells, slots, Seg}

-- The block of `n` clicks from `b` and that of `n'` from `b'` share no address.
abbrev pub Off : (b n b' n' : ℕ) → Type 0
Off b n b' n' = (b + n ≤ b') ⊎ (b' + n' ≤ b)

pub Off-sym : (b n b' n' : ℕ) → Off b n b' n' → Off b' n' b n
Off-sym b n b' n' (inl h) = inr h
Off-sym b n b' n' (inr h) = inl h

pub Clear-shrink :
    (b' n' : ℕ) (pre : List Block) (b n clicks : ℕ) (suf : List Block)
    → clicks ≤ n
    → Clear b' n' (pre ++ (b, n) ∷ suf)
    → Clear b' n' (pre ++ shrink b n clicks suf)
Clear-shrink b' n' [] b n clicks suf le (o, c) = elim (Bool-cases (n == clicks)) [
  | inl whole ↦ rw whole c
  | inr part ↦ rw part (ground (arith, o), c)
]
Clear-shrink b' n' (x ∷ pre) b n clicks suf le (o, c) =
    (o, Clear-shrink b' n' pre b n clicks suf le c)

-- A block that is clear of the holes shares no address with the front of one of them.
pub Clear-at :
    (b' n' : ℕ) (pre : List Block) (b n clicks : ℕ) (suf : List Block)
    → clicks ≤ n
    → Clear b' n' (pre ++ (b, n) ∷ suf)
    → Off b' n' b clicks
Clear-at b' n' [] b n clicks suf le (o, c) = ground (arith, o)
Clear-at b' n' (x ∷ pre) b n clicks suf le (o, c) = Clear-at b' n' pre b n clicks suf le c

Clear-join :
    (b' n' b n : ℕ) (bs : List Block)
    → 0 < n'
    → Clear b' n' ((b, n) ∷ bs)
    → Clear b' n' (join (b, n) bs)
unfolding join
Clear-join b' n' b n [] pos c = c
Clear-join b' n' b n ((bx, nx) ∷ bs) pos (o, (ox, c)) = elim (Bool-cases (b + n == bx)) [
  | inl near ↦ rw near (ground (arith, o, ox, near), c)
  | inr far ↦ rw far (o, (ox, c))
]

pub Clear-free_blocks :
    (b' n' b n : ℕ) (bs : List Block)
    → 0 < n'
    → Off b' n' b n
    → Clear b' n' bs
    → Clear b' n' (free_blocks b n bs)
unfolding free_blocks
Clear-free_blocks b' n' b n [] pos o c = (o, tt)
Clear-free_blocks b' n' b n ((bx, nx) ∷ bs) pos o (ox, c) = elim (Bool-cases (ltb bx b)) [
  | inl below ↦
      rw below (
        Clear-join b' n' bx nx (free_blocks b n bs) pos
          (ox, Clear-free_blocks b' n' b n bs pos o c))
  | inr above ↦ rw above (Clear-join b' n' b n ((bx, nx) ∷ bs) pos (o, (ox, c)))
]

-- What the search for `size` clicks in the swap area found.
pub data SwapFit (swap_base size : ℕ) (q : Ptr) (cs : Cells) (r : Run Found) : Type 0 where
  fits :
      (pre : Cells) (i b n : ℕ) (suf : Cells)
      → cs ≡ pre ++ (i, b, n) ∷ suf
      → swap_base ≤ b
      → size ≤ n
      → r ≡ ok (some (last_ptr q (slots pre), i))
      → SwapFit swap_base size q cs r
  none_fits : r ≡ ok none → SwapFit swap_base size q cs r

SwapFit-cons :
    (sb size : ℕ) (q : Ptr) (i b n : ℕ) (cs : Cells) (r r' : Run Found)
    → r' ≡ r
    → SwapFit sb size (some i) cs r
    → SwapFit sb size q ((i, b, n) ∷ cs) r'
SwapFit-cons sb size q i b n cs r r' e (fits pre j b' n' suf split high le found) =
    fits ((i, b, n) ∷ pre) j b' n' suf (ap (λ (l : Cells). (i, b, n) ∷ l) split) high le (e ∙ found)
SwapFit-cons sb size q i b n cs r r' e (none_fits found) = none_fits (e ∙ found)

pub find_swap-SwapFit :
    (t : HoleTable) (sb size fuel : ℕ) (q hp : Ptr) (cs : Cells)
    → Seg t.hole hp cs none
    → length cs < fuel
    → SwapFit sb size q cs (find_swap fuel sb size q hp t)
unfolding find_swap
find_swap-SwapFit t sb size zero q hp cs s h = absurd (omega arith)
find_swap-SwapFit t sb size (suc k) q hp [] s h = none_fits (rw (s, find_swap))
find_swap-SwapFit t sb size (suc k) q hp ((i, b, n) ∷ cs) (e, eb, en, s) h =
    elim (Bool-cases (leb sb b && leb size n)) [
      | inl good ↦
          fits [] i b n cs refl (ground arith) (ground arith)
            (rw (e, find_swap) (rw (eb, en, good)))
      | inr bad ↦
          SwapFit-cons sb size q i b n cs _ _ (rw (e, find_swap) (rw (eb, en, bad)))
            (find_swap-SwapFit t sb size k (some i) (t.hole i).h_next cs s (omega arith))
    ]
