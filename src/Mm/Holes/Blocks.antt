-- ===== src/Mm/Holes/Blocks.antt =====
-- The hole list seen as a list of blocks: what the routines of alloc.c promise, with the table
-- and its links left out.
use soi_24z.Base.{
  ℕ, suc, ◌+◌, ◌^◌, ◌≤◌, ◌<◌, ◌≡◌, refl, ap, ◌⊎◌, Bool, false, ◌&&◌, ◌||◌, List, [], ◌∷◌, ◌++◌,
  arith, ◌==◌, ltb, leb, if◌then◌else◌, Bool-cases, eq_of_==, inl, inr,
}

-- Base and length of the holes, in order.
abbrev pub Block : Type 0
Block = ℕ × ℕ

-- Blocks in the order of their addresses that do not overlap, from `lo` on.
abbrev pub Sorted : ℕ → List Block → Type 0
Sorted lo [] = Unit
Sorted lo ((b, n) ∷ bs) = (lo ≤ b) × (b + n < 2 ^ 32) × Sorted (b + n) bs

-- What `merge_last` makes of a hole and those behind it.
unfoldable pub join : Block → List Block → List Block
join c [] = c ∷ []
join (b, n) ((b', n') ∷ bs) = if b + n == b' then (b, n + n') ∷ bs else (b, n) ∷ (b', n') ∷ bs

-- What `merge` makes of them.
unfoldable pub join_twice : Block → List Block → List Block
unfolding join
join_twice c [] = c ∷ []
join_twice (b, n) ((b', n') ∷ bs) =
    if b + n == b' then join (b, n + n') bs else (b, n) ∷ join (b', n') bs

-- The same with something between any two of them: no two holes touch.
abbrev pub Gapped : ℕ → List Block → Type 0
Gapped lo [] = Unit
Gapped lo ((b, n) ∷ bs) = (lo ≤ b) × (0 < n) × (b + n < 2 ^ 32) × Gapped (suc (b + n)) bs

-- The block from `b` of `n` clicks shares no address with the blocks.
abbrev pub Clear : ℕ → ℕ → List Block → Type 0
Clear b n [] = Unit
Clear b n ((b', n') ∷ bs) = ((b + n ≤ b') ⊎ (b' + n' ≤ b)) × Clear b n bs

-- What `free_mem` promises: the block in its place, in one piece with the holes that it touches.
unfoldable pub free_blocks : ℕ → ℕ → List Block → List Block
unfolding join
free_blocks b n [] = (b, n) ∷ []
free_blocks b n ((b', n') ∷ bs) =
    let rest = free_blocks b n bs in
    if ltb b' b then join (b', n') rest else join (b, n) ((b', n') ∷ bs)

-- Is the address `a` in one of the blocks?
abbrev pub covers : ℕ → List Block → Bool
covers a [] = false
covers a ((b, n) ∷ bs) = (leb b a && ltb a (b + n)) || covers a bs

abbrev pub total : List Block → ℕ
total [] = 0
total ((b, n) ∷ bs) = n + total bs

abbrev pub AllBelow : ℕ → List Block → Type 0
AllBelow b [] = Unit
AllBelow b ((b', n') ∷ bs) = (b' < b) × AllBelow b bs

abbrev pub From : ℕ → List Block → Type 0
From b [] = Unit
From b ((b', n') ∷ bs) = b ≤ b'

pub Gapped-mono : (lo lo' : ℕ) (bs : List Block) → lo' ≤ lo → Gapped lo bs → Gapped lo' bs
Gapped-mono lo lo' [] h g = tt
Gapped-mono lo lo' ((b, n) ∷ bs) h g = (omega arith, g.1, g.2, g.3)

pub Gapped-Sorted : (lo : ℕ) (bs : List Block) → Gapped lo bs → Sorted lo bs
Gapped-Sorted lo [] g = tt
Gapped-Sorted lo ((b, n) ∷ bs) g =
    (g.0, g.2, Gapped-Sorted (b + n) bs (Gapped-mono (suc (b + n)) (b + n) bs (omega arith) g.3))

-- A hole that ends below the next one is left as it is.
pub join-Gapped :
    (b n e : ℕ) (bs : List Block) → b + n ≡ e → From (suc e) bs → join (b, n) bs ≡ (b, n) ∷ bs
unfolding join
join-Gapped b n e [] eq h = refl
join-Gapped b n e ((b', n') ∷ bs) eq h = ground arith

pub Gapped-From : (lo : ℕ) (bs : List Block) → Gapped lo bs → From lo bs
Gapped-From lo [] g = tt
Gapped-From lo ((b, n) ∷ bs) g = g.0

join-join :
    (p np b n : ℕ) (bs : List Block)
    → join (p, np) (join (b, n) bs) ≡ join_twice (p, np) ((b, n) ∷ bs)
unfolding join join_twice
join-join p np b n [] = refl
join-join p np b n ((b', n') ∷ bs) = ground arith

pub free_blocks-From : (b n : ℕ) (bs : List Block) → From b bs → free_blocks b n bs ≡ join (b, n) bs
unfolding free_blocks
free_blocks-From b n [] h = refl
free_blocks-From b n ((b', n') ∷ bs) h = ground arith

-- In front of all holes `merge` does what is promised.
pub free_blocks-front :
    (b n lo : ℕ) (bs : List Block)
    → Gapped lo bs
    → From b bs
    → join_twice (b, n) bs ≡ free_blocks b n bs
unfolding join_twice free_blocks join
free_blocks-front b n lo [] g h = refl
free_blocks-front b n lo ((b', n') ∷ bs) g h =
    let later = Gapped-From (suc (b' + n')) bs g.3 in
    rw (free_blocks-From b n ((b', n') ∷ bs) h) (elim (Bool-cases (b + n == b')) [
      | inl near ↦
          let end : b + (n + n') ≡ b' + n' = omega (arith, eq_of_== (b + n) b' near) in
          rw near (join-Gapped b (n + n') (b' + n') bs end later)
      | inr far ↦ rw far (ap (λ r. (b, n) ∷ r) (join-Gapped b' n' (b' + n') bs refl later))
    ])

From-join_twice :
    (lo : ℕ) (pre : List Block) (b n : ℕ) (bs cs : List Block)
    → From lo (pre ++ (b, n) ∷ bs)
    → From lo (pre ++ join_twice (b, n) cs)
unfolding join_twice join
From-join_twice lo [] b n bs [] h = h
From-join_twice lo [] b n bs ((b', n') ∷ []) h = ground arith
From-join_twice lo [] b n bs ((b', n') ∷ (b'', n'') ∷ cs) h = ground arith
From-join_twice lo (c ∷ pre) b n bs cs h = h

-- Behind the last hole below it `merge` does what is promised.
pub free_blocks-middle :
    (b n lo : ℕ) (pre : List Block) (p np : ℕ) (bs : List Block)
    → Gapped lo (pre ++ (p, np) ∷ bs)
    → AllBelow b pre
    → p < b
    → From b bs
    → pre ++ join_twice (p, np) ((b, n) ∷ bs) ≡ free_blocks b n (pre ++ (p, np) ∷ bs)
unfolding free_blocks
free_blocks-middle b n lo [] p np bs g below h from =
    rw (free_blocks-From b n bs from, join-join) (ground arith)
free_blocks-middle b n lo ((b0, n0) ∷ pre) p np bs g below h from =
    let ih = free_blocks-middle b n (suc (b0 + n0)) pre p np bs g.3 below.1 h from in
    let head : From (suc (b0 + n0)) (pre ++ join_twice (p, np) ((b, n) ∷ bs)) =
      From-join_twice (suc (b0 + n0)) pre p np bs ((b, n) ∷ bs)
        (Gapped-From (suc (b0 + n0)) (pre ++ (p, np) ∷ bs) g.3) in
    let kept = join-Gapped b0 n0 (b0 + n0) (pre ++ join_twice (p, np) ((b, n) ∷ bs)) refl head in
    ground (arith, below.0, ih, kept)

covers-join : (a b n : ℕ) (bs : List Block) → covers a (join (b, n) bs) ≡ covers a ((b, n) ∷ bs)
unfolding join
covers-join a b n [] = refl
covers-join a b n ((b', n') ∷ bs) = ground arith

total-join : (b n : ℕ) (bs : List Block) → total (join (b, n) bs) ≡ n + total bs
unfolding join
total-join b n [] = refl
total-join b n ((b', n') ∷ bs) = ground arith

-- Exactly the freed addresses are added.
pub covers-free_blocks :
    (a b n : ℕ) (bs : List Block)
    → covers a (free_blocks b n bs) ≡ ((leb b a && ltb a (b + n)) || covers a bs)
unfolding free_blocks
covers-free_blocks a b n [] = refl
covers-free_blocks a b n ((b', n') ∷ bs) =
    let ih = covers-free_blocks a b n bs in
    ground (arith, ih, covers-join a b' n' (free_blocks b n bs), covers-join a b n ((b', n') ∷ bs))

pub total-free_blocks : (b n : ℕ) (bs : List Block) → total (free_blocks b n bs) ≡ n + total bs
unfolding free_blocks
total-free_blocks b n [] = refl
total-free_blocks b n ((b', n') ∷ bs) =
    let ih = total-free_blocks b n bs in
    ground (arith, ih, total-join b' n' (free_blocks b n bs), total-join b n ((b', n') ∷ bs))

join-keeps-Gapped :
    (lo b n : ℕ) (bs : List Block)
    → lo ≤ b
    → 0 < n
    → b + n < 2 ^ 32
    → Gapped (b + n) bs
    → Gapped lo (join (b, n) bs)
unfolding join
join-keeps-Gapped lo b n [] h pos fits g = (h, pos, fits, tt)
join-keeps-Gapped lo b n ((b', n') ∷ bs) h pos fits g = elim (Bool-cases (b + n == b')) [
  | inl near ↦
      let end : b + (n + n') ≡ b' + n' = omega (arith, eq_of_== (b + n) b' near) in
      rw near (h, omega arith, omega (arith, g.2), rw end g.3)
  | inr far ↦ rw far (h, pos, fits, (ground (arith, g.0), g.1, g.2, g.3))
]

-- The holes stay in order and apart.
pub free_blocks-Gapped :
    (lo b n : ℕ) (bs : List Block)
    → lo ≤ b
    → 0 < n
    → b + n < 2 ^ 32
    → Clear b n bs
    → Gapped lo bs
    → Gapped lo (free_blocks b n bs)
unfolding free_blocks
free_blocks-Gapped lo b n [] h pos fits c g = (h, pos, fits, tt)
free_blocks-Gapped lo b n ((b', n') ∷ bs) h pos fits (c, cs) g = elim (Bool-cases (ltb b' b)) [
  | inl below ↦
      let end : b' + n' ≤ b = ground (arith, c, below) in
      let rest =
        free_blocks-Gapped (b' + n') b n bs end pos fits cs
          (Gapped-mono (suc (b' + n')) (b' + n') bs (omega arith) g.3) in
      rw below (join-keeps-Gapped lo b' n' (free_blocks b n bs) g.0 g.1 g.2 rest)
  | inr above ↦ rw above (
      join-keeps-Gapped lo b n ((b', n') ∷ bs) h pos fits
        (ground (arith, c, above, g.1), g.1, g.2, g.3))
]
