-- ===== src/Fs/Grow/Links.antt =====
-- Chains of blocks: their ends, a block more, and their blocks freed.
use soi_24z.Base.{
  ℕ, zero, suc, ◌<◌, ◌≡◌, refl, ap, sym, ◌∙◌, subst, true, false, inl, inr, List, [], ◌∷◌, ◌++◌,
  arith, ◌==◌, if◌then◌else◌, Bool-cases, eq_of_==, update, update_here, update_there, ok, length,
  Distinct, has, last_of, has-apart,
}
use soi_24z.Fs.{FileSystem, BlockNr, free_block, end_of_chain, block, is_free, set_fat}
use soi_24z.Fs.Blocks.{ChainOf, ChainOf-same}
use soi_24z.Fs.Grow.{last_block}
use soi_24z.Fs.Repair.{clear_chain}

-- The end of a chain is found.
pub last_block-last :
    (fuel n : ℕ) (bs : List ℕ) (fs : FileSystem)
    → ChainOf fs.fat (fs.fat n) bs
    → length bs < fuel
    → last_block fuel (block n) fs ≡ ok (last_of n bs)
unfolding last_block
last_block-last zero n bs fs c enough = absurd (omega arith)
last_block-last (suc fuel) n [] fs e enough = rw (e, last_block) refl
last_block-last (suc fuel) n (m ∷ bs) fs (e, c) enough =
    rw (e, last_block) (last_block-last fuel m bs fs c (omega arith))

pub has-last_of : (n : ℕ) (bs : List ℕ) → has (last_of n bs) (n ∷ bs) ≡ true
has-last_of n [] = ground arith
has-last_of n (m ∷ bs) = ground (arith, has-last_of m bs)

pub sym_apart : (a b : ℕ) → (a == b) ≡ false → (b == a) ≡ false
sym_apart a b h = ground (arith, h)

-- A block is linked behind the last one.
pub ChainOf-snoc :
    (fat : ℕ → BlockNr) (n : ℕ) (bs : List ℕ) (b : ℕ)
    → ChainOf fat (fat n) bs
    → Distinct (n ∷ bs)
    → has b (n ∷ bs) ≡ false
    → (let fat' = update (update fat (last_of n bs) (block b)) b end_of_chain in
        ChainOf fat' (fat' n) (bs ++ b ∷ []))
ChainOf-snoc fat n [] b e d out =
    let other : (n == b) ≡ false = ground (arith, out) in
    (
      update_there (update fat n (block b)) b end_of_chain n other ∙ update_here fat n (block b),
      update_here (update fat n (block b)) b end_of_chain,
    )
ChainOf-snoc fat n (m ∷ bs) b (e, c) (apart, d) out =
    let l = last_of m bs in
    let off : (n == l) ≡ false = sym_apart l n (has-apart l n (m ∷ bs) (has-last_of m bs) apart) in
    let other : (n == b) ≡ false = ground (arith, out) in
    (
      update_there (update fat l (block b)) b end_of_chain n other
          ∙ (update_there fat l (block b) n off ∙ e),
      ChainOf-snoc fat m bs b c d (ground (arith, out)),
    )

-- The blocks of a chain are freed, and no others.
pub clear_chain-Cleared :
    (fuel : ℕ) (b : BlockNr) (bs : List ℕ) (fs : FileSystem)
    → ChainOf fs.fat b bs
    → Distinct bs
    → length bs < fuel
    → (fat : ℕ → BlockNr) × (clear_chain fuel b fs ≡ ok (record fs { fat = fat }))
      × ((n : ℕ) → fat n ≡ (if has n bs then free_block else fs.fat n))
unfolding clear_chain
clear_chain-Cleared zero b bs fs c d enough = absurd (omega arith)
clear_chain-Cleared (suc fuel) b [] fs e d enough = (fs.fat, rw (e, clear_chain) refl, λ n. refl)
clear_chain-Cleared (suc fuel) b (m ∷ bs) fs (e, c) (out, d) enough =
    let freed = set_fat m free_block fs in
    let (fat, run, now) =
      clear_chain-Cleared fuel (fs.fat m) bs freed
        (ChainOf-same fs.fat freed.fat (fs.fat m) bs
          (λ n h. update_there fs.fat m free_block n (has-apart n m bs h out)) c)
        d (omega arith) in
    (fat, rw (e, clear_chain) run, λ n. now n ∙ with_first n)
  where
    with_first :
        (n : ℕ)
        → (if has n bs then free_block else update fs.fat m free_block n)
          ≡ (if has n (m ∷ bs) then free_block else fs.fat n)
    with_first n = elim (Bool-cases (n == m)) [
      | inr other ↦ rw other refl
      | inl same ↦ elim (Bool-cases (has n bs)) [
        | inl h ↦ rw (same, h) refl
        | inr h ↦ rw (same, h) refl
      ]
    ]

-- The blocks of a chain are in use.
pub chain_used :
    (fat : ℕ → BlockNr) (n : ℕ) (bs : List ℕ) (k : ℕ)
    → ChainOf fat (fat n) bs
    → has k (n ∷ bs) ≡ true
    → is_free (fat k) ≡ false
chain_used fat n [] k e h =
    subst (λ j. is_free (fat j) ≡ false) (sym (eq_of_== k n (ground (arith, h)))) (ap is_free e)
chain_used fat n (m ∷ bs) k (e, c) h = elim (Bool-cases (k == n)) [
  | inl same ↦ subst (λ j. is_free (fat j) ≡ false) (sym (eq_of_== k n same)) (ap is_free e)
  | inr other ↦ chain_used fat m bs k c (ground (arith, h, other))
]
