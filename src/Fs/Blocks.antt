-- ===== src/Fs/Blocks.antt =====
-- The blocks of a file: a chain through the table of blocks.
use soi_24z.Base.{
  ℕ, zero, suc, ◌+◌, ◌<◌, ◌≤◌, ◌≡◌, refl, inl, inr, option_cases, Bool, true, false, none, some,
  List, [], ◌∷◌, arith, ◌==◌, Bool-cases, eq_of_==, update, has,
}
use soi_24z.Fs.{
  BlockNr, free_block, end_of_chain, block, is_free, first_index, first_free_block, count_free,
}

-- From `b` the table leads through the blocks `bs` to END_OF_CHAIN.
abbrev pub ChainOf : (ℕ → BlockNr) → BlockNr → List ℕ → Type 0
ChainOf fat b [] = b ≡ end_of_chain
ChainOf fat b (n ∷ bs) = (b ≡ block n) × ChainOf fat (fat n) bs

pub ChainOf-same :
    (fat fat' : ℕ → BlockNr) (b : BlockNr) (bs : List ℕ)
    → ((n : ℕ) → has n bs ≡ true → fat' n ≡ fat n)
    → ChainOf fat b bs
    → ChainOf fat' b bs
ChainOf-same fat fat' b [] same c = c
ChainOf-same fat fat' b (n ∷ bs) same (e, c) = (
  e,
  rw (same n (ground arith))
      (ChainOf-same fat fat' (fat n) bs (λ a h. same a (ground (arith, h))) c),
)

pub first_index-same :
    (left i : ℕ) (p q : ℕ → Bool)
    → ((j : ℕ) → p j ≡ q j)
    → first_index left i p ≡ first_index left i q
unfolding first_index
first_index-same zero i p q same = refl
first_index-same (suc left) i p q same = rw (same i, first_index-same left (suc i) p q same) refl

-- What the search finds passes the test and is in range.
pub first_index-some :
    (left i : ℕ) (p : ℕ → Bool) (n : ℕ)
    → first_index left i p ≡ some n
    → (p n ≡ true) × (i ≤ n) × (n < i + left)
unfolding first_index
first_index-some zero i p n e = absurd (cc)
first_index-some (suc left) i p n e = elim (Bool-cases (p i)) [
  | inl hit ↦ ground (arith, hit, e)
  | inr miss ↦
      let (good, ge, lt) = first_index-some left (suc i) p n (ground (arith, miss, e)) in
      (good, omega arith, omega arith)
]

-- It fails only if no index passes.
pub first_index-none :
    (left i : ℕ) (p : ℕ → Bool)
    → first_index left i p ≡ none
    → (j : ℕ) → i ≤ j
    → j < i + left
    → p j ≡ false
unfolding first_index
first_index-none zero i p e j ge lt = absurd (omega arith)
first_index-none (suc left) i p e j ge lt = elim (Bool-cases (p i)) [
  | inl hit ↦ absurd (ground (arith, hit, e))
  | inr miss ↦ elim (Bool-cases (j == i)) [
    | inl here ↦ rw (eq_of_== j i here) miss
    | inr later ↦
        first_index-none left (suc i) p (ground (arith, miss, e)) j (ground (arith, later))
          (omega arith)
  ]
]

count_free-none :
    (n : ℕ) (fat : ℕ → BlockNr) → ((j : ℕ) → j < n → is_free (fat j) ≡ false) → count_free n fat ≡ 0
unfolding count_free
count_free-none zero fat none_free = refl
count_free-none (suc n) fat none_free =
    rw (none_free n (omega arith), count_free-none n fat (λ j h. none_free j (omega arith))) refl

-- With a free block there is a first one.
pub first_of_count :
    (n : ℕ) (fat : ℕ → BlockNr)
    → 0 < count_free n fat
    → (c : ℕ) × (first_index n 0 (λ i. is_free (fat i)) ≡ some c)
      × (is_free (fat c) ≡ true)
      × (c < n)
first_of_count n fat some_free = elim (option_cases (first_index n 0 (λ i. is_free (fat i)))) [
  | inl miss ↦ absurd (
      omega (
        arith,
        count_free-none n fat
            (λ j h. first_index-none n 0 (λ i. is_free (fat i)) miss j (omega arith) (omega arith)),
      ))
  | inr (c, hit) ↦
      let (good, ge, lt) = first_index-some n 0 (λ i. is_free (fat i)) c hit in
      (c, hit, good, omega (arith, lt))
]

pub count_free-same :
    (n : ℕ) (fat fat' : ℕ → BlockNr)
    → ((j : ℕ) → j < n → is_free (fat' j) ≡ is_free (fat j))
    → count_free n fat' ≡ count_free n fat
unfolding count_free
count_free-same zero fat fat' same = refl
count_free-same (suc n) fat fat' same =
    rw (same n (omega arith), count_free-same n fat fat' (λ j h. same j (omega arith))) refl

-- A free block that is taken is one less.
pub count_free-taken :
    (n c : ℕ) (fat : ℕ → BlockNr) (b : BlockNr)
    → c < n
    → is_free (fat c) ≡ true
    → is_free b ≡ false
    → suc (count_free n (update fat c b)) ≡ count_free n fat
unfolding count_free
count_free-taken zero c fat b lt was now = absurd (omega arith)
count_free-taken (suc n) c fat b lt was now = elim (Bool-cases (n == c)) [
  | inl last ↦
      let e : n ≡ c = eq_of_== n c last in
      let same =
        count_free-same n fat (update fat c b)
          (λ j h. let off : (j == c) ≡ false = ground (arith, e, h) in rw off refl) in
      let was' : is_free (fat n) ≡ true = rw e was in rw (last, was', now, same) (omega arith)
  | inr before ↦
      rw before (omega (arith, count_free-taken n c fat b (ground (arith, before)) was now))
]

-- With a free block the search finds one.
pub first_free :
    (fat : ℕ → BlockNr)
    → 0 < count_free 64 fat
    → (c : ℕ) × (first_free_block fat ≡ some c) × (is_free (fat c) ≡ true) × (c < 64)
unfolding first_free_block
first_free fat some_free = first_of_count 64 fat some_free

pub free_of : (b : BlockNr) → is_free b ≡ true → b ≡ free_block
free_of free_block h = refl
free_of end_of_chain h = absurd (cc)
free_of (block n) h = absurd (cc)
