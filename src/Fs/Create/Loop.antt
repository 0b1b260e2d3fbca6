-- ===== src/Fs/Create/Loop.antt =====
-- The loop of create that takes the blocks of a new file.
use soi_24z.Base.{
  ℕ, zero, suc, ◌<◌, ◌≤◌, ◌≡◌, refl, ap, sym, ◌∙◌, subst, ◌⊎◌, true, false, some, inl, inr, List,
  [], ◌∷◌, arith, ◌==◌, if◌then◌else◌, Bool-cases, eq_of_==, update_here, Ptr, ok, length, Distinct,
  has,
}
use soi_24z.Fs.{
  FileSystem, BlockNr, end_of_chain, is_free, link, count_free, first_free_block, set_fat,
}
use soi_24z.Fs.Blocks.{ChainOf, first_index-same, first_free, count_free-same, count_free-taken}
use soi_24z.Fs.Files.{take_block, take_blocks}

-- What the loop took from the table of blocks: the blocks `bs`, in a chain from the first of them.
pub record Took (left : ℕ) (current : Ptr) (fs fs' : FileSystem) : Type 0 where
  pub blocks : List ℕ
  pub many : length blocks ≡ left
  pub chain : 0 < left → ChainOf fs'.fat (link current) blocks
  pub distinct : Distinct blocks
  pub were_free : (n : ℕ) → has n blocks ≡ true → (is_free (fs.fat n) ≡ true) × (n < 64)
  pub others : (n : ℕ) → has n blocks ≡ false → fs'.fat n ≡ fs.fat n
  pub files : fs'.fd_table ≡ fs.fd_table
  pub count : fs'.file_count ≡ fs.file_count
  pub memory : fs'.memory ≡ fs.memory

-- The search for a free block sees only whether entries are free.
first_free-same :
    (fat fat' : ℕ → BlockNr)
    → ((n : ℕ) → is_free (fat n) ≡ is_free (fat' n))
    → first_free_block fat ≡ first_free_block fat'
unfolding first_free_block
first_free-same fat fat' same =
    first_index-same 64 0 (λ i. is_free (fat i)) (λ i. is_free (fat' i)) same

-- The entry that a round writes.
entry_used :
    (left : ℕ) (fat : ℕ → BlockNr)
    → left ≤ count_free 64 fat
    → is_free (if left == 0 then end_of_chain else link (first_free_block fat)) ≡ false
entry_used zero fat enough = refl
entry_used (suc left) fat enough =
    let (c, hit, was, lt) = first_free fat (omega (arith, enough)) in
    let more : (suc left == 0) ≡ false = ground arith in rw (more, hit) refl

module _ (fs : FileSystem) (c : ℕ) (b : BlockNr) (was : is_free (fs.fat c) ≡ true)
    (used : is_free b ≡ false) where
  -- The table after a round with the block `c` and the entry `b`.
  abbrev round : FileSystem
  round = set_fat c b (take_block c fs)

  round_here : round.fat c ≡ b
  round_here = update_here (take_block c fs).fat c b

  round_there : (n : ℕ) → (n == c) ≡ false → round.fat n ≡ fs.fat n
  round_there n other = rw (other) refl

  round_free : first_free_block (take_block c fs).fat ≡ first_free_block round.fat
  round_free =
      first_free-same (take_block c fs).fat round.fat λ n. elim (Bool-cases (n == c)) [
        | inl same ↦ rw same (sym used)
        | inr other ↦ rw other refl
      ]

  round_count : c < 64 → suc (count_free 64 round.fat) ≡ count_free 64 fs.fat
  round_count lt =
      let once = count_free-taken 64 c fs.fat end_of_chain lt was refl in
      let same = count_free-same 64 (take_block c fs).fat round.fat λ n lt'.
        elim (Bool-cases (n == c)) [ inl same ↦ rw same used | inr other ↦ rw other refl ] in
      omega (arith, once, same)

  -- A round and what the loop does behind it.
  Took-more :
      (left : ℕ) (next : Ptr) (fs' : FileSystem)
      → c < 64
      → (b ≡ (if left == 0 then end_of_chain else link next))
      → Took left next round fs'
      → Took (suc left) (some c) fs fs'
  Took-more left next fs' lt eb t =
      let apart : has c t.blocks ≡ false = fresh (Bool-cases (has c t.blocks)) in
      let at : fs'.fat c ≡ b = t.others c apart ∙ round_here in
      record {
        blocks = c ∷ t.blocks;
        many = omega (arith, t.many);
        chain = λ pos. (refl, rw (at, eb) (rest t.blocks t.many t.chain));
        distinct = (apart, t.distinct);
        were_free = λ n h. was_free n (Bool-cases (n == c)) h;
        others = λ n h. t.others n (ground (arith, h)) ∙ round_there n (ground (arith, h));
        files = t.files;
        count = t.count;
        memory = t.memory;
      }
    where
      fresh : (has c t.blocks ≡ true) ⊎ (has c t.blocks ≡ false) → has c t.blocks ≡ false
      fresh (inr no_c) = no_c
      fresh (inl yes_c) = absurd (cc ((t.were_free c yes_c).0, ap is_free round_here, used))

      was_free :
          (n : ℕ)
          → ((n == c) ≡ true) ⊎ ((n == c) ≡ false)
          → has n (c ∷ t.blocks) ≡ true
          → (is_free (fs.fat n) ≡ true) × (n < 64)
      was_free n (inl same) h =
          let e : c ≡ n = sym (eq_of_== n c same) in
          (subst (λ k. is_free (fs.fat k) ≡ true) e was, subst (λ k. k < 64) e lt)
      was_free n (inr other) h =
          let (free, small) = t.were_free n (ground (arith, h, other)) in
          (sym (ap is_free (round_there n other)) ∙ free, small)

      rest :
          (bs : List ℕ)
          → length bs ≡ left
          → (0 < left → ChainOf fs'.fat (link next) bs)
          → ChainOf fs'.fat (if left == 0 then end_of_chain else link next) bs
      rest [] none_left chain = let z : (left == 0) ≡ true = ground (arith, none_left) in rw z refl
      rest (x ∷ bs) some_left chain =
          let z : (left == 0) ≡ false = ground (arith, some_left) in
          rw z (chain (omega (arith, some_left)))

pub take_blocks-Took :
    (left : ℕ) (current : Ptr) (fs : FileSystem)
    → first_free_block fs.fat ≡ current
    → left ≤ count_free 64 fs.fat
    → (fs' : FileSystem) × (take_blocks left current fs ≡ ok fs') × Took left current fs fs'
unfolding take_blocks
take_blocks-Took zero current fs first enough = (
  fs,
  refl,
  record {
    blocks = [];
    many = refl;
    chain = λ pos. absurd (omega arith);
    distinct = tt;
    were_free = λ n h. absurd (cc);
    others = λ n h. refl;
    files = refl;
    count = refl;
    memory = refl;
  },
)
take_blocks-Took (suc left) current fs first enough =
    let (c, hit, was, lt) = first_free fs.fat (omega (arith, enough)) in
    let at : current ≡ some c = sym first ∙ hit in
    let next = first_free_block (take_block c fs).fat in
    let entry = if left == 0 then end_of_chain else link next in
    let used : is_free entry ≡ false =
      entry_used left (take_block c fs).fat
        (omega (arith, enough, count_free-taken 64 c fs.fat end_of_chain lt was refl)) in
    let again = round fs c entry was used in
    let (fs', run, t) =
      take_blocks-Took left next again (sym (round_free fs c entry was used))
        (omega (arith, enough, round_count fs c entry was used lt)) in
    (
      fs',
      rw (at, take_blocks) run,
      subst (λ p. Took (suc left) p fs fs') (sym at)
          (Took-more fs c entry was used left next fs' lt refl t),
    )
